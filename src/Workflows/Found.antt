-- ===== src/Workflows/Found.antt =====
-- What a successful `_row` or `_reference_row` has found.
use unified_personal_mcp.Prelude.{
  String, Bool, false, ◌&&◌, Option, none, some, ◌≡◌, refl, arith, ◌==◌, inl, inr, Option-cases,
}
use unified_personal_mcp.Table.{select_one}
use unified_personal_mcp.Workflows.State.{
  Workflow, Credential, Registry, ok, Result-cases, hash, row, reference_row,
}

-- The workflow that an owner's row is selected by.
abbrev pub owned : String → String → Workflow → Bool
owned key owner w = w.token_hash == key && w.owner == owner

-- A row was found through a credential that is not revoked.
pub record Found (sha256 : String → String) (reg : Registry) (owner token : String) (w : Workflow)
    : Type 0 where
  pub someone : (owner == "") ≡ false
  pub key : String
  pub hashed : hash sha256 token ≡ ok key
  pub credential : Credential
  pub known : select_one (λ c. c.credential_hash == key) reg.credentials ≡ some credential
  pub standing : credential.revoked ≡ false
  pub selected : select_one (owned credential.token_hash owner) reg.rows ≡ some w

pub row-Found :
    (sha256 : String → String) (reg : Registry) (owner token : String) {w : Workflow}
    → row sha256 reg owner token ≡ ok w
    → Found sha256 reg owner token w
unfolding row
row-Found sha256 reg owner token {w} e = elim (Result-cases (hash sha256 token)) [
  | inl (f, bad) ↦ ground arith
  | inr (key, hashed) ↦
      elim (Option-cases
        (select_one (λ (c : Credential). c.credential_hash == key) reg.credentials)) [
          | inl unknown ↦ ground arith
          | inr (c, known) ↦ record {
            someone = ground arith;
            key = key;
            hashed = hashed;
            credential = c;
            known = known;
            standing = ground arith;
            selected = ground arith;
          }
        ]
]

pub reference_row-selected :
    (reg : Registry) (owner : String) (workflow_ref : Option String) {w : Workflow}
    → reference_row reg owner workflow_ref ≡ ok w
    → (key : String) × (workflow_ref ≡ some key) × (select_one (owned key owner) reg.rows ≡ some w)
unfolding reference_row
reference_row-selected reg owner none e = ground arith
reference_row-selected reg owner (some key) e = (key, refl, ground arith)
