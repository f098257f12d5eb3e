-- ===== src/Api/Golden.antt =====
-- `_provision_boot_golden_hashes` of api/state.py: the boot hashes that are written, and whether
-- the check of sim/secure_boot.py then passes.
use sec_oc.Base.{
  ◌≡◌, refl, sym, ap, ◌∙◌, inl, inr, String, Bool, true, false, ◌&&◌, List, [], ◌∷◌, arith,
  Bool-cases, str_eq, eq_iff, if◌then◌else◌,
}
use sec_oc.Base.{ok}
use sec_oc.Base.Bytes.{Bytes}
use sec_oc.Boot.Verdict.{matches}
use sec_oc.Boot.Verdict.Golden.{all_match, compute_hash_up, matches_written, matches-read}
use sec_oc.Nvm.{Nvm, read, write}
use sec_oc.Nvm.Store.{read-write}
use sec_oc.Nvm.Values.{Value, null, blob}
use sec_oc.Secoc.Objects.{Setup}
use sec_oc.Api.State.{AppState, is_none, write_golden, boot_keys, provision_boot_golden_hashes}

-- The name is in the list.
abbrev pub listed : String → List String → Bool
listed j [] = false
listed j (k ∷ keys) = if str_eq k j then true else listed j keys

abbrev filled : Bytes → Bool → Value → Value
filled golden missing v = if missing then blob golden else v

-- The turn of the loop for one key.
abbrev turn : Bytes → String → Nvm → Nvm
turn golden k nvm = if is_none (read k null nvm) then write k (blob golden) nvm else nvm

turn_other :
    (golden : Bytes) (k j : String) (default : Value) (nvm : Nvm)
    → str_eq k j ≡ false
    → read j default (turn golden k nvm) ≡ read j default nvm
turn_other golden k j default nvm other = elim (Bool-cases (is_none (read k null nvm))) [
  | inl missing ↦ rw missing (ground (arith, read-write k j (blob golden) default nvm))
  | inr there ↦ rw there refl
]

turn_here :
    (golden : Bytes) (k j : String) (nvm : Nvm)
    → str_eq k j ≡ true
    → read j null (turn golden k nvm) ≡ filled golden (is_none (read j null nvm)) (read j null nvm)
turn_here golden k j nvm same =
    let name = (eq_iff k j).0 same in
    elim (Bool-cases (is_none (read k null nvm))) [
      | inl missing ↦
          rw (sym name, missing) (ground (arith, read-write k k (blob golden) null nvm, eq_iff k k))
      | inr there ↦ rw (sym name, there) refl
    ]

filled_twice :
    (golden : Bytes) (v : Value)
    → filled golden (is_none (filled golden (is_none v) v)) (filled golden (is_none v) v)
      ≡ filled golden (is_none v) v
unfolding is_none
filled_twice golden v = elim (Bool-cases (is_none v)) [
  | inl missing ↦ rw missing refl
  | inr there ↦ rw there (rw there refl)
]

filled-turn :
    (golden : Bytes) (k j : String) (nvm : Nvm)
    → filled golden (is_none (read j null (turn golden k nvm))) (read j null (turn golden k nvm))
      ≡ filled golden (is_none (read j null nvm)) (read j null nvm)
filled-turn golden k j nvm = elim (Bool-cases (str_eq k j)) [
  | inl same ↦
      ap (λ v. filled golden (is_none v) v) (turn_here golden k j nvm same)
      ∙ filled_twice golden (read j null nvm)
  | inr other ↦ ap (λ v. filled golden (is_none v) v) (turn_other golden k j null nvm other)
]

pub write_golden-unlisted :
    (golden : Bytes) (keys : List String) (j : String) (default : Value) (nvm : Nvm)
    → listed j keys ≡ false
    → read j default (write_golden golden keys nvm) ≡ read j default nvm
unfolding write_golden
write_golden-unlisted golden [] j default nvm h = refl
write_golden-unlisted golden (k ∷ keys) j default nvm h =
    write_golden-unlisted golden keys j default (turn golden k nvm) (ground arith)
    ∙ turn_other golden k j default nvm (ground arith)

write_golden-listed :
    (golden : Bytes) (keys : List String) (j : String) (nvm : Nvm)
    → listed j keys ≡ true
    → read j null (write_golden golden keys nvm)
      ≡ filled golden (is_none (read j null nvm)) (read j null nvm)
unfolding write_golden
write_golden-listed golden [] j nvm h = absurd (cc)
write_golden-listed golden (k ∷ keys) j nvm h = elim (Bool-cases (listed j keys)) [
  | inl later ↦
      write_golden-listed golden keys j (turn golden k nvm) later ∙ filled-turn golden k j nvm
  | inr over ↦
      write_golden-unlisted golden keys j null (turn golden k nvm) over
      ∙ turn_here golden k j nvm (ground arith)
]

module _ (env : Setup) (snapshot : Bytes) where
  -- The boot hash under the key is missing, or it is the one of the snapshot.
  unfoldable pub fits : String → Nvm → Bool
  fits key nvm = if is_none (read key null nvm) then true else matches env.lib snapshot nvm key

  unfoldable pub all_fit : Nvm → Bool
  all_fit nvm =
      fits "boot_golden_hash_code" nvm
      && (fits "boot_golden_hash_config" nvm && fits "boot_golden_hash_keys" nvm)

  pub fits_read :
      (key : String) (nvm nvm' : Nvm)
      → read key null nvm' ≡ read key null nvm
      → fits key nvm' ≡ fits key nvm
  unfolding fits
  fits_read key nvm nvm' same = rw same (
      ap (λ m. if is_none (read key null nvm) then true else m)
        (matches-read env.lib snapshot nvm nvm' key same))

  matches-filled :
      (key : String) (nvm nvm' : Nvm)
      → read key null nvm'
        ≡ filled (env.lib.sha256_digest snapshot) (is_none (read key null nvm)) (read key null nvm)
      → matches env.lib snapshot nvm' key ≡ fits key nvm
  unfolding fits
  matches-filled key nvm nvm' e = elim (Bool-cases (is_none (read key null nvm))) [
    | inl missing ↦ rw missing (
        matches_written env.lib snapshot nvm' key
          (e ∙ ap (λ b. filled (env.lib.sha256_digest snapshot) b (read key null nvm)) missing))
    | inr there ↦ rw there (
        matches-read env.lib snapshot nvm nvm' key
          (e ∙ ap (λ b. filled (env.lib.sha256_digest snapshot) b (read key null nvm)) there))
  ]

  -- The memory with the missing boot hashes written.
  unfoldable pub with_golden : Nvm → Nvm
  with_golden nvm = write_golden (env.lib.sha256_digest snapshot) boot_keys nvm

  pub golden_match : (nvm : Nvm) → all_match env.lib snapshot (with_golden nvm) ≡ all_fit nvm
  unfolding all_match all_fit with_golden
  golden_match nvm =
      rw
        (
          matched "boot_golden_hash_code" refl,
          matched "boot_golden_hash_config" refl,
          matched "boot_golden_hash_keys" refl,
        )
        refl
    where
      matched :
          (key : String)
          → listed key boot_keys ≡ true
          → matches env.lib snapshot
              (write_golden (env.lib.sha256_digest snapshot) boot_keys nvm)
              key
            ≡ fits key nvm
      matched key known =
          matches-filled key nvm _
            (write_golden-listed (env.lib.sha256_digest snapshot) boot_keys key nvm known)

  pub golden_written :
      (b : AppState)
      → b.stack.csm.hsm.fail_mode ≡ false
      → provision_boot_golden_hashes env snapshot b
        ≡ (record b { stack = record b.stack { nvm = with_golden b.stack.nvm } }, ok tt)
  unfolding provision_boot_golden_hashes with_golden
  golden_written b up = rw (compute_hash_up env.lib snapshot snapshot b.stack.csm.hsm up) refl
