-- ===== src/Policy/Edits.antt =====
-- The edits that `PolicyService` (pi4/lib/hioc/asset_policy.py) decides on: the record that an
-- operator's change leaves, or the refusal.
use hioc.Base.{
  ◌>>=◌, ◌>>◌, ℕ, ◌+◌, Bool, true, false, ◌&&◌, ◌||◌, not, Option, none, some, ◌==◌, nat_key,
  if◌then◌else◌, is_none, is_some, exception, policy, store_unavailable, Result, ok, err,
  identity_unsafe, revision_conflict,
}
use hioc.Contract.{require, require_code}
use hioc.Policy.Types.{
  World, Text, Operator, Patch, Record, AssetStatus, StatusWord, friendly_name, physical_location,
  purpose, notes, operator_cli,
}
use hioc.Policy.Normalize.{normalize_field}
use hioc.Policy.Validate.{same_field, validate_status}
use hioc.Policy.Service.{no_policy, no_fields, apply_patch, is_unchanged, has_value, turns_on}

-- `fields` of `set_fields`: `none` where a field is not named.
pub record Edit : Type 0 where
  pub friendly_name : Option (Option Text)
  pub physical_location : Option (Option Text)
  pub purpose : Option (Option Text)
  pub notes : Option (Option Text)

pub data LocalWord : Type 0 where
  created updated no_change removed : LocalWord

-- What `_result` carries of a change: its kind, the word of the status and the revision.
pub record LocalReply : Type 0 where
  pub result : LocalWord
  pub status : StatusWord
  pub revision : Option ℕ

abbrev is_named {ℓ} : {A : Type ℓ} → Option A → Bool
is_named o = is_some o

abbrev normal_edit :
    (Option Text → Result (Option Text)) → Option (Option Text) → Result (Option (Option Text))
normal_edit f none = ok none
normal_edit f (some t) = elim (f t) as (λ _. Result (Option (Option Text))) [
  | err e ↦ err e
  | ok n ↦ ok (some n)
]

abbrev edited : Option (Option Text) → Option Text → Option Text
edited none old = old
edited (some t) old = t

abbrev keeps : Option (Option Text) → Option Text → Bool
keeps none old = true
keeps (some t) old = same_field old t

abbrev fills : Option (Option Text) → Bool
fills (some (some t)) = true
fills _ = false

unfoldable pub is_edit : Edit → Bool
is_edit e =
    is_named e.friendly_name
    || is_named e.physical_location
    || is_named e.purpose
    || is_named e.notes

unfoldable pub keeps_all : Edit → Operator → Bool
keeps_all e o =
    keeps e.friendly_name o.friendly_name
    && keeps e.physical_location o.physical_location
    && keeps e.purpose o.purpose
    && keeps e.notes o.notes

unfoldable pub fills_any : Edit → Bool
fills_any e = fills e.friendly_name || fills e.physical_location || fills e.purpose || fills e.notes

unfoldable pub apply_edit : Edit → Operator → Operator
apply_edit e o = record {
  friendly_name = edited e.friendly_name o.friendly_name;
  physical_location = edited e.physical_location o.physical_location;
  purpose = edited e.purpose o.purpose;
  notes = edited e.notes o.notes;
}

-- A new record, before the fields that were named are set.
abbrev pub fresh_record : ℕ → ℕ → Record
fresh_record key now = record {
  stable_device_id = key;
  fields = no_fields;
  created_at = now;
  updated_at = now;
  update_source = operator_cli;
  revision = 1;
  policy = no_policy;
}

abbrev pub next_revision : ℕ → Record → Record
next_revision now r = record r {
  updated_at = now;
  update_source = operator_cli;
  revision = r.revision + 1;
}

abbrev pub is_at : Option ℕ → Record → Bool
is_at none r = false
is_at (some n) r = r.revision == n

-- A record to commit, or the revision that stays.
pub data Decision : Type 0 where
  store_record : LocalWord → Record → Decision
  keep : ℕ → Decision

-- `set_fields`, from the record of the asset on.
unfoldable pub decide_edit : Bool → Edit → Option ℕ → ℕ → ℕ → Option Record → Result Decision
unfolding fills_any keeps_all apply_edit
decide_edit allowed e expected now key none = do
  require_code (is_none expected) revision_conflict
  require_code allowed identity_unsafe
  require (fills_any e)
  ok (store_record created (record (fresh_record key now) { fields = apply_edit e no_fields }))
decide_edit allowed e expected now key (some r) = do
  require_code (is_at expected r) revision_conflict
  ok (
      if keeps_all e r.fields
      then keep r.revision
      else store_record updated (record (next_revision now r) { fields = apply_edit e r.fields }))

-- `set_policy_local`, from the record of the asset on.
unfoldable pub decide_local_policy :
    Bool → Patch → Option ℕ → ℕ → ℕ → Option Record → Result Decision
unfolding has_value is_unchanged apply_patch
decide_local_policy strong p expected now key none = do
  require_code (is_none expected) revision_conflict
  require_code strong identity_unsafe
  require (has_value p)
  ok (store_record created (record (fresh_record key now) { policy = apply_patch p no_policy }))
decide_local_policy strong p expected now key (some r) = do
  require_code (is_at expected r) revision_conflict
  require_code (not (turns_on p) || strong) identity_unsafe
  ok (
      if is_unchanged p r.policy
      then keep r.revision
      else store_record updated (record (next_revision now r) { policy = apply_patch p r.policy }))

-- `{name: normalize_field(name, value)}`
unfoldable pub normalize_edit : World → Edit → Result Edit
normalize_edit w e = do
  a ← normal_edit (normalize_field w friendly_name) e.friendly_name
  b ← normal_edit (normalize_field w physical_location) e.physical_location
  c ← normal_edit (normalize_field w purpose) e.purpose
  d ← normal_edit (normalize_field w notes) e.notes
  ok (record { friendly_name = a; physical_location = b; purpose = c; notes = d })

-- `load_status()['status']`, where the file can be read or not.
unfoldable pub word_of : Bool → Option AssetStatus → Result StatusWord
word_of false o = err (policy store_unavailable false)
word_of true none = err exception
word_of true (some st) = do validate_status st; ok st.status
