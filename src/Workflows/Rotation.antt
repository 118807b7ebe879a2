-- ===== src/Workflows/Rotation.antt =====
-- `resume` replaces a credential: the old tokens stop working and the new one works.
use unified_personal_mcp.Prelude.{
  subst, ℕ, ◌+◌, String, true, false, ◌&&◌, Option, none, some, List, [], ◌∷◌, ◌++◌, ◌≡◌, refl, sym,
  ◌∙◌, arith, ◌==◌, eq_iff, eq_refl, if◌then◌else◌,
}
use unified_personal_mcp.Table.{
  select_one, select_one-passes, update, select_one-update, select_one-update-none,
  select_one-append, select_one-append_new,
}
use unified_personal_mcp.Workflows.State.{
  Workflow, Credential, Registry, Result, ok, err, workflow_credential_replaced, has_key, hash, row,
  reference_row,
}
use unified_personal_mcp.Workflows.Resume.{
  Vault, Resumed, ResumeRequest, replace_credential, store_credential, rotate, resume_row, resume,
  new_reply,
}
use unified_personal_mcp.Workflows.Found.{Found, owned, row-Found}

-- `_row` on what is found: a credential by its hash, and a row by the credential's key and owner.
row-eq :
    (sha256 : String → String) (reg : Registry) (owner token : String) {key : String}
    {c : Credential} {w : Workflow}
    → (owner == "") ≡ false
    → hash sha256 token ≡ ok key
    → select_one (λ c. c.credential_hash == key) reg.credentials ≡ some c
    → select_one (owned c.token_hash owner) reg.rows ≡ some w
    → row sha256 reg owner token ≡ (if c.revoked then err workflow_credential_replaced else ok w)
unfolding row
row-eq sha256 reg owner token o h k s = ground arith

-- A resumption that is no replay has written a new credential.
record Rotated (v : Vault) (ttl now : ℕ) (token : String) (q : ResumeRequest) (reg reg' : Registry)
    : Type 0 where
  fresh : String
  encrypted : String
  hashed : hash v.sha256 token ≡ ok fresh
  unused : select_one (λ c. c.credential_hash == fresh) reg.credentials ≡ none
  written : reg' ≡ replace_credential v ttl now q fresh encrypted reg

store_credential-Rotated :
    (v : Vault) (ttl now : ℕ) (token : String) (q : ResumeRequest) (encrypted : Option String)
    (fresh : Result String) (reg : Registry) {reply : Resumed}
    → fresh ≡ hash v.sha256 token
    → (store_credential v ttl now q (new_reply token q) encrypted fresh reg).0 ≡ ok reply
    → Rotated v ttl now token q reg
        (store_credential v ttl now q (new_reply token q) encrypted fresh reg).1
unfolding store_credential
store_credential-Rotated v ttl now token q none fresh reg same e = cc
store_credential-Rotated v ttl now token q (some encrypted) (err f) reg same e = cc
store_credential-Rotated v ttl now token q (some encrypted) (ok fresh) reg same e = record {
  fresh = fresh;
  encrypted = encrypted;
  hashed = sym same;
  unused = ground arith;
  written = ground arith;
}

credential_key_of :
    (sha256 : String → String) (reg : Registry) (owner old : String) (w : Workflow)
    (f : Found sha256 reg owner old w)
    → f.credential.token_hash ≡ w.token_hash
credential_key_of sha256 reg owner old w f =
    let passed : owned f.credential.token_hash owner w ≡ true =
      select_one-passes (owned f.credential.token_hash owner) reg.rows f.selected in
    ground (arith, eq_iff w.token_hash f.credential.token_hash)

module _ (v : Vault) (ttl now : ℕ) (token : String) (q : ResumeRequest) (reg reg' : Registry)
    (r : Rotated v ttl now token q reg reg') (owner old : String) (w : Workflow)
    (f : Found v.sha256 reg owner old w) (names : w.token_hash ≡ q.key) where
  credential_key : f.credential.token_hash ≡ q.key
  credential_key = credential_key_of v.sha256 reg owner old w f ∙ names

  abbrev renewed_row : Workflow
  renewed_row = record w { credential_generation = q.expected_generation + 1; last_activity = now }

  found_after : select_one (owned q.key owner) reg'.rows ≡ some renewed_row
  unfolding replace_credential
  found_after = rw r.written (
      let at_key : has_key q.key w ≡ true = rw names (eq_refl q.key) in
      let s : select_one (owned q.key owner) (
            update (has_key q.key)
              (λ w. record w {
                credential_generation = q.expected_generation + 1;
                last_activity = now;
              })
              reg.rows)
          ≡ some (if has_key q.key w then renewed_row else w) =
        select_one-update (owned q.key owner) (has_key q.key) _ reg.rows (λ _. refl)
          (rw credential_key at f.selected) in
      rw at_key at s)

  abbrev revoke : Credential → Credential
  revoke c = record c { revoked = true }

  abbrev new_credential : Credential
  new_credential = record {
    credential_hash = r.fresh;
    token_hash = q.key;
    generation = q.expected_generation + 1;
    revoked = false;
  }

  -- The credentials before the new one is inserted.
  abbrev revoked_credentials : List Credential
  revoked_credentials = update (λ c. c.token_hash == q.key) revoke reg.credentials

  credentials_after : reg'.credentials ≡ revoked_credentials ++ new_credential ∷ []
  unfolding replace_credential
  credentials_after = rw r.written

  old_credential :
      select_one (λ c. c.credential_hash == f.key) reg'.credentials ≡ some (revoke f.credential)
  old_credential = rw credentials_after (
      select_one-append _ revoked_credentials new_credential (revoke f.credential) (
        let s : select_one (λ c. c.credential_hash == f.key) revoked_credentials
            ≡ some
                (if f.credential.token_hash == q.key then revoke f.credential else f.credential) =
          select_one-update (λ c. c.credential_hash == f.key) (λ c. c.token_hash == q.key) revoke
            reg.credentials (λ _. refl) f.known in
        let same : (f.credential.token_hash == q.key) ≡ true =
          (eq_iff f.credential.token_hash q.key).1 credential_key in
        rw same at s))

  old_revoked : row v.sha256 reg' owner old ≡ err workflow_credential_replaced
  old_revoked =
      row-eq v.sha256 reg' owner old {w = renewed_row} f.someone f.hashed old_credential
        (rw credential_key found_after)

  new_works : row v.sha256 reg' owner token ≡ ok renewed_row
  new_works =
      row-eq v.sha256 reg' owner token {c = new_credential} f.someone r.hashed
        (rw credentials_after (
          select_one-append_new (λ c. c.credential_hash == r.fresh) revoked_credentials
            new_credential
            (select_one-update-none (λ c. c.credential_hash == r.fresh) (λ c. c.token_hash == q.key)
              revoke reg.credentials (λ _. refl) r.unused)
            (eq_refl r.fresh)))
        found_after

resume_row-Rotated :
    (v : Vault) (ttl now : ℕ) (token : String) (q : ResumeRequest) (w : Workflow) (reg : Registry)
    {reply : Resumed}
    → select_one (λ r. r.owner == q.owner && r.request_id == q.request_id) reg.responses ≡ none
    → (resume_row v ttl now token q w reg).0 ≡ ok reply
    → Rotated v ttl now token q reg (resume_row v ttl now token q w reg).1
unfolding resume_row rotate
resume_row-Rotated v ttl now token q w reg {reply} new e = rw stored (
    store_credential-Rotated v ttl now token q
      (v.protect (new_reply token q) q.owner q.key q.request_id) (hash v.sha256 token) reg
      {reply = reply} refl (rw stored at e))
  where
    stored :
        resume_row v ttl now token q w reg
        ≡ store_credential v ttl now q
            (new_reply token q)
            (v.protect (new_reply token q) q.owner q.key q.request_id)
            (hash v.sha256 token)
            reg
    stored = ground arith

by_reference :
    (sha256 : String → String) (reg : Registry) (owner old : String) (w : Workflow)
    → Found sha256 reg owner old w
    → reference_row reg owner (some w.token_hash) ≡ ok w
unfolding reference_row
by_reference sha256 reg owner old w f =
    let selected : select_one (owned w.token_hash owner) reg.rows ≡ some w =
      rw (credential_key_of sha256 reg owner old w f) at f.selected in
    rw (f.someone, selected)

-- A `resume` that rotates refuses any generation but the one of the row.
resume_row-generation :
    (v : Vault) (ttl now : ℕ) (token : String) (q : ResumeRequest) (w : Workflow) (reg : Registry)
    {reply : Resumed}
    → select_one (λ r. r.owner == q.owner && r.request_id == q.request_id) reg.responses ≡ none
    → (resume_row v ttl now token q w reg).0 ≡ ok reply
    → q.expected_generation ≡ w.credential_generation
unfolding resume_row rotate
resume_row-generation v ttl now token q w reg new e = ground (arith, new)

-- A `resume` that succeeds and is no replay of an earlier request: the generation that it was given was
-- that of the workflow, a token that named the workflow before is refused as replaced, and the new token
-- names it, with the next generation.
pub resume_rotates :
    (v : Vault) (ttl now : ℕ) (token owner old request_id : String) (generation : ℕ)
    (reg : Registry) {w : Workflow} {reply : Resumed}
    → row v.sha256 reg owner old ≡ ok w
    → select_one (λ r. r.owner == owner && r.request_id == request_id) reg.responses ≡ none
    → (resume v ttl now token owner (some w.token_hash) request_id generation reg).0 ≡ ok reply
    → let reg' = (resume v ttl now token owner (some w.token_hash) request_id generation reg).1 in
      (generation ≡ w.credential_generation)
      × (row v.sha256 reg' owner old ≡ err workflow_credential_replaced)
      × (row v.sha256 reg' owner token
          ≡ ok (record w {
            credential_generation = w.credential_generation + 1;
            last_activity = now;
          }))
unfolding resume
resume_rotates v ttl now token owner old request_id generation reg {w} {reply} found new e =
    rw stored (
      let r : Rotated v ttl now token q reg (resume_row v ttl now token q w reg).1 =
        resume_row-Rotated v ttl now token q w reg {reply = reply} new (rw stored at e) in
      let expected =
        resume_row-generation v ttl now token q w reg {reply = reply} new (rw stored at e) in
      (
        expected,
        old_revoked v ttl now token q reg _ r owner old w f refl,
        subst
            (λ g.
              row v.sha256 (resume_row v ttl now token q w reg).1 owner token
              ≡ ok (record w { credential_generation = g + 1; last_activity = now }))
            expected (new_works v ttl now token q reg _ r owner old w f refl),
      ))
  where
    q : ResumeRequest
    q = record {
      owner = owner;
      key = w.token_hash;
      request_id = request_id;
      expected_generation = generation;
    }

    f : Found v.sha256 reg owner old w
    f = row-Found v.sha256 reg owner old found

    stored :
        resume v ttl now token owner (some w.token_hash) request_id generation reg
        ≡ resume_row v ttl now token q w reg
    stored = ground (arith, by_reference v.sha256 reg owner old w f)
