-- ===== src/Transfers/Blocks.antt =====
-- personal_mcp/file_transfer.py: the loops that read a file in blocks.
use unified_personal_mcp.Prelude.{
  ℕ, zero, suc, ◌+◌, ◌-◌, ◌≤◌, ◌<◌, ◌≡◌, refl, sym, ap, ◌∙◌, min, true, false, none, some, List, [],
  ◌∷◌, ◌++◌, arith, inl, inr, ltb, length, length-append, take, drop, take-append-drop, length-take,
  length-drop, List-cases, Bool-cases, if◌then◌else◌,
}
use unified_personal_mcp.Transfers.Upload.Commit.{copy}
use unified_personal_mcp.Transfers.Download.{snapshot}

-- A positive count takes nothing only from the empty list.
take-nothing : (n : ℕ) (xs : List ℕ) → 1 ≤ n → take n xs ≡ [] → xs ≡ []
take-nothing n [] h e = refl
take-nothing zero (x ∷ xs) h e = absurd (omega arith)
take-nothing (suc n) (x ∷ xs) h e = cc

-- With blocks of at least one byte, and more rounds allowed than there are bytes, the loop that copies an
-- upload ends with the whole source.
pub copy-all :
    (fuel chunk_bytes : ℕ) (source : List ℕ)
    → 1 ≤ chunk_bytes
    → length source < fuel
    → copy fuel chunk_bytes source ≡ source
unfolding copy
copy-all zero n xs h f = absurd (omega arith)
copy-all (suc fuel) n xs h f = elim (List-cases (take n xs)) [
  | inl e ↦ rw (e, copy) (sym (take-nothing n xs h e))
  | inr (b, bs, e) ↦
      let measured : suc (length bs) ≡ length (take n xs) = ap length (sym e) in
      let shorter : length (drop n xs) < fuel =
        omega (arith, length-take n xs, length-drop n xs, f, h, measured) in
      rw (e, copy)
        (ap (λ zs. (b ∷ bs) ++ zs) (copy-all fuel n (drop n xs) h shorter)
          ∙ ap (λ ys. ys ++ drop n xs) (sym e)
          ∙ take-append-drop n xs)
]

pub drop-length-take : (k : ℕ) (xs : List ℕ) → drop (length (take k xs)) xs ≡ drop k xs
drop-length-take zero xs = refl
drop-length-take (suc k) [] = refl
drop-length-take (suc k) (x ∷ xs) = drop-length-take k xs

-- What is left after a block, for the whole.
after_block :
    (k : ℕ) (xs bs : List ℕ)
    → take k xs ≡ bs
    → (bs ++ drop (length bs) xs ≡ xs) × (length bs + length (drop (length bs) xs) ≡ length xs)
after_block k xs bs e =
    let rest : drop (length bs) xs ≡ drop k xs =
      ap (λ ys. drop (length ys) xs) (sym e) ∙ drop-length-take k xs in
    let whole : bs ++ drop (length bs) xs ≡ xs =
      ap (λ ys. bs ++ ys) rest ∙ ap (λ ys. ys ++ drop k xs) (sym e) ∙ take-append-drop k xs in
    (whole, sym (length-append bs (drop (length bs) xs)) ∙ ap length whole)

-- With blocks of at least one byte, and more rounds allowed than there are bytes left, the loop that copies
-- a download ends with all that is left of the source, or with none, exactly if the source is then longer
-- than the size that was found at first.
pub snapshot-all :
    (fuel chunk_bytes size total : ℕ) (source : List ℕ)
    → 1 ≤ chunk_bytes
    → total ≤ size
    → length source < fuel
    → snapshot fuel chunk_bytes size total source
      ≡ (if ltb size (total + length source) then none else some source)
unfolding snapshot
snapshot-all zero n size total xs h t f = absurd (omega arith)
snapshot-all (suc fuel) n size total xs h t f =
    let k = min n (size + 1 - total) in
    elim (List-cases (take k xs)) [
      | inl e ↦
          let empty = take-nothing k xs (omega arith) e in
          let fits : ltb size (total + length xs) ≡ false = rw empty (ground arith) in
          rw (e, snapshot) (rw fits (ap some (sym empty)))
      | inr (b, bs, e) ↦
          let cut = after_block k xs (b ∷ bs) e in
          let taken : suc (length bs) ≤ k = omega (arith, length-take k xs, ap length (sym e)) in
          rw (e, snapshot)
            (elim (Bool-cases (ltb size (total + length (b ∷ bs)))) [
              | inl g ↦
                  let grown : ltb size (total + length xs) ≡ true = ground (arith, cut.1) in
                  rw (g, grown) refl
              | inr g ↦
                  let same : total + length (b ∷ bs) + length (drop (length (b ∷ bs)) xs)
                      ≡ total + length xs =
                    omega (arith, cut.1) in
                  let rest =
                    snapshot-all fuel n size (total + length (b ∷ bs)) (drop (length (b ∷ bs)) xs) h
                      (ground arith) (omega (arith, cut.1)) in
                  elim (Bool-cases (ltb size (total + length xs))) [
                    | inl u ↦ rw (g, rest, same, u) refl
                    | inr u ↦ rw (g, rest, same, u) (ap some cut.0)
                  ]
            ])
    ]
