-- ===== src/Api/Profile/Setup.antt =====
-- The profile's setup opens the gate for unfinished profiles (internal/api/profile.go, huma_auth.go).
use minerals.Base.{
  String, ◌==◌, true, false, Option, none, some, List, ltb, ◌≡◌, refl, sym, ap, ◌∙◌, trim_space,
  Bool-cases, inl, inr, codes,
}
use minerals.Uuid.{Uuid, UuidText}
use minerals.Domain
use minerals.Domain.{Instant, status_pending, status_suspended}
use minerals.Auth
use minerals.Auth.{Claims}
use minerals.Users.{activate, changed, find_sub, mark_active}
use minerals.Api.HumaAuth
use minerals.Api.HumaAuth.{
  next, merged, resolve_user, require_complete_profile, then_with, then_resolve, huma_auth,
  protected,
}
use minerals.Api.HumaAuth.Laws.{resolve_user-active}
use minerals.Api.Profile.{
  Faults, ProfileBody, max_display_name_len, byte_len, checked_name, own_row, setup_body,
  complete_row, complete,
}
use minerals.Api.Profile.Laws.{checked_then-inr, wrote-inr, find_sub-update, own_row-find_sub}

-- A name that passes is the trimmed one, within the bound.
checked_name-inr :
    (raw name : String)
    → checked_name raw ≡ inr name
    → ((raw == "") ≡ false)
      × (ltb max_display_name_len (byte_len (codes raw)) ≡ false)
      × (raw ≡ name)
unfolding checked_name
checked_name-inr raw name h = elim (Bool-cases (raw == "")) [
  | inl t ↦ absurd (let h' = rw t at h in cc)
  | inr f ↦ elim (Bool-cases (ltb max_display_name_len (byte_len (codes raw)))) [
    | inl t ↦ absurd (let h' = rw (f, t) at h in cc)
    | inr short ↦ (f, short, (let h' = rw (f, short) at h in cc))
  ]
]

-- What a setup that succeeds finds and leaves.
complete-inr :
    (uuids : UuidText) (faults : Faults) (now : Instant) (caller : Auth.User) (raw : String)
    (users after : List Domain.User) (body : ProfileBody)
    → complete uuids faults now caller raw users ≡ (inr body, after)
    → (row : Domain.User) × (find_sub caller.sub users ≡ some row)
      × (ltb max_display_name_len (byte_len (codes (trim_space raw))) ≡ false)
      × (body ≡ setup_body uuids faults now caller (trim_space raw) row)
      × ((caller.sub == "") ≡ false)
      × (find_sub caller.sub after ≡ some (changed (activate (trim_space raw)) now row))
unfolding complete complete_row mark_active
complete-inr uuids faults now caller raw users after body h = elim (Bool-cases (caller.sub == "")) [
  | inl t ↦ absurd (let h' = rw t at h in cc)
  | inr named ↦
      let h1 = rw named at h in
      let (name, e, h2) = checked_then-inr (checked_name (trim_space raw)) users after _ body h1 in
      let (given, short, same) = checked_name-inr (trim_space raw) name e in
      let (row, own, h3) =
        checked_then-inr (own_row faults.read caller users) users after _ body h2 in
      let (f, there) = own_row-find_sub faults.read caller users row own in
      let (set, done) = wrote-inr _ body _ users after h3 in
      (
        row,
        there,
        short,
        sym set ∙ ap (λ n. setup_body uuids faults now caller n row) (sym same),
        named,
        find_sub-update faults.activate (activate name) now caller.sub row users after there done
            ∙ ap (λ n. some (changed (activate n) now row)) (sym same),
      )
]

gate_opens :
    (u : Auth.User) (name : String) (now : Instant) (row : Domain.User) (users : List Domain.User)
    → then_with require_complete_profile (next (merged u (changed (activate name) now row)), users)
      ≡ (next (merged u (changed (activate name) now row)), users)
unfolding then_with require_complete_profile merged changed
gate_opens u name now row users = refl

activated-live :
    (name : String) (now : Instant) (row : Domain.User)
    → ((changed (activate name) now row).status == status_suspended) ≡ false
unfolding changed
activated-live name now row = refl

-- What the setup answers: neither default, whatever the row has.
abbrev pub setup_answer : UuidText → Auth.User → Domain.User → String → ProfileBody
setup_answer uuids caller row name = record {
  id = uuids.to_string row.id;
  email = row.email;
  display_name = name;
  pending = false;
  roles = caller.roles;
  field_defaults = none;
  default_specimen_visibility = none;
}

setup_body-setup_answer :
    (uuids : UuidText) (faults : Faults) (now : Instant) (caller : Auth.User) (name : String)
    (row : Domain.User)
    → setup_body uuids faults now caller name row ≡ setup_answer uuids caller row name
unfolding setup_body
setup_body-setup_answer uuids faults now caller name row = refl

-- If the setup of a profile succeeds, the caller had a row, the name without its blanks has at most 80 bytes, and
-- the answer has that row's identifier and address, the name, and null for both defaults. A request of the same
-- subject that authenticates, whose first query does not fail, and that reads the table as the setup left it passes
-- the protected chain with the row under that name.
pub complete-opens :
    (uuids : UuidText) (faults : Faults) (now : Instant) (caller : Auth.User) (raw : String)
    (users after : List Domain.User) (body : ProfileBody) (parse_uuid : String → Option Uuid)
    (verifier : Option (String → Option Claims)) (queries : HumaAuth.Faults) (id : Uuid)
    (later : Instant) (t2 t3 : List Domain.User) (current : Auth.User) (header : String)
    (u : Auth.User)
    → complete uuids faults now caller raw users ≡ (inr body, after)
    → huma_auth parse_uuid verifier current header ≡ next u
    → u.sub ≡ caller.sub
    → queries.read ≡ false
    → (row : Domain.User) × (find_sub caller.sub users ≡ some row)
      × (ltb max_display_name_len (byte_len (codes (trim_space raw))) ≡ false)
      × (body ≡ setup_answer uuids caller row (trim_space raw))
      × (protected parse_uuid verifier queries id later after t2 t3 true current header
          ≡ (next (merged u (changed (activate (trim_space raw)) now row)), after))
unfolding protected then_resolve
complete-opens uuids faults now caller raw users after body parse_uuid verifier queries id later t2
      t3 current header u h known who ok =
    let (row, there, short, shown, named, own) =
      complete-inr uuids faults now caller raw users after body h in
    let named' : (u.sub == "") ≡ false = ap (λ (s : String). s == "") who ∙ named in
    let own' = ap (λ s. find_sub s after) who ∙ own in
    let live = activated-live (trim_space raw) now row in
    let passed = resolve_user-active queries id later after t2 t3 u _ named' ok own' live in
    (
      row,
      there,
      short,
      shown ∙ setup_body-setup_answer uuids faults now caller (trim_space raw) row,
      rw known (rw passed (gate_opens u (trim_space raw) now row after)),
    )
