-- ===== src/Profile/Reload.antt =====
-- What every profile that sim/security_profile.py loads satisfies.
use sec_oc.Base.{
  ℕ, ◌+◌, ◌≡◌, inl, inr, refl, String, Bool, true, false, Option, none, some, [], ◌∷◌, arith,
}
use sec_oc.Base.{Outcome, ok, raised, >>=-eq-ok, ok-injective, ◌>>=◌}
use mathlib.Core.Path.{subst}
use sec_oc.Base.Dict.{Dict, lookup, insert, lookup-insert_cases}
use sec_oc.Config.{supported_algorithms}
use sec_oc.Nvm.Values.{Value, null, boolean, integer, text, blob, array, object}
use sec_oc.Profile.{
  SecurityProfileEntry, is_in, load_entry, load_entries, replace_profiles, SecurityProfile, reload,
  lengths_fit, assert_config, is_supported, as_text, required, optional_length, read_algorithm,
  read_lengths, read_fields, both_or_neither, build_entry, extra_fields, is_empty,
}

abbrev pub FillBudget : Option ℕ → Option ℕ → Type 0
FillBudget none none = Unit
FillBudget (some tfv) (some tmac) = tfv + tmac ≡ 4
FillBudget none (some tmac) = ⊥
FillBudget (some tfv) none = ⊥

-- The algorithm is supported, and the two Classic CAN lengths are both missing or fill the four
-- bytes that the payload leaves of the frame.
pub record IsValid (p : SecurityProfileEntry) : Type 0 where
  pub supported : is_in p.algorithm supported_algorithms ≡ true
  pub fits : FillBudget p.tfv_length p.tmac_length

assert_config-eq-ok : (b : Bool) (u : Unit {0}) → assert_config b ≡ ok u → b ≡ true
unfolding assert_config
assert_config-eq-ok true u h = refl
assert_config-eq-ok false u h = cc

lengths_fit-FillBudget : (tfv tmac : Option ℕ) → lengths_fit tfv tmac ≡ true → FillBudget tfv tmac
unfolding lengths_fit
lengths_fit-FillBudget none none h = tt
lengths_fit-FillBudget (some a) (some b) h = ground arith
lengths_fit-FillBudget none (some b) h = cc
lengths_fit-FillBudget (some a) none h = cc

as_text_supported :
    (v : Value) (name : String)
    → is_supported v ≡ true
    → as_text v ≡ ok name
    → is_in name supported_algorithms ≡ true
unfolding is_supported as_text
as_text_supported (text t) name s h =
    subst (λ n. is_in n supported_algorithms ≡ true) (ok-injective h) s
as_text_supported null name s h = cc
as_text_supported (boolean b) name s h = cc
as_text_supported (integer n) name s h = cc
as_text_supported (blob bs) name s h = cc
as_text_supported (array xs) name s h = cc
as_text_supported (object fs) name s h = cc

read_algorithm_lem :
    (entry : Dict Value) (name : String)
    → read_algorithm entry ≡ ok name
    → is_in name supported_algorithms ≡ true
unfolding read_algorithm
read_algorithm_lem entry name h =
    let (v, _, h₁) =
      >>=-eq-ok (required "algorithm" entry)
        (λ v. assert_config (is_supported v) >>= λ _. as_text v) h in
    let (u, supported, text_v) = >>=-eq-ok (assert_config (is_supported v)) (λ _. as_text v) h₁ in
    as_text_supported v name (assert_config-eq-ok (is_supported v) u supported) text_v

read_lengths_lem :
    (entry : Dict Value) (lengths : Option ℕ × Option ℕ)
    → read_lengths entry ≡ ok lengths
    → FillBudget lengths.0 lengths.1
unfolding read_lengths
read_lengths_lem entry lengths h₀ =
    let (_, _, h) =
      >>=-eq-ok
        (assert_config (both_or_neither (lookup "tfv_length" entry) (lookup "tmac_length" entry)))
        (λ _. optional_length (lookup "tfv_length" entry) >>= λ tfv.
          optional_length (lookup "tmac_length" entry) >>= λ tmac.
          assert_config (lengths_fit tfv tmac) >>= λ _. ok (tfv, tmac))
        h₀ in
    let (tfv, _, h₁) =
      >>=-eq-ok (optional_length (lookup "tfv_length" entry))
        (λ tfv. optional_length (lookup "tmac_length" entry) >>= λ tmac.
          assert_config (lengths_fit tfv tmac) >>= λ _. ok (tfv, tmac))
        h in
    let (tmac, _, h₂) =
      >>=-eq-ok (optional_length (lookup "tmac_length" entry))
        (λ tmac. assert_config (lengths_fit tfv tmac) >>= λ _. ok (tfv, tmac)) h₁ in
    let (u, fits, done) =
      >>=-eq-ok (assert_config (lengths_fit tfv tmac)) (λ _. ok (tfv, tmac)) h₂ in
    subst (λ (l : Option ℕ × Option ℕ). FillBudget l.0 l.1) (ok-injective done)
      (lengths_fit-FillBudget tfv tmac (assert_config-eq-ok (lengths_fit tfv tmac) u fits))

load_entry-IsValid :
    (entry : Dict Value) (p : SecurityProfileEntry) → load_entry entry ≡ ok p → IsValid p
unfolding load_entry build_entry
load_entry-IsValid entry p h =
    let (_, _, h₁) =
      >>=-eq-ok (assert_config (is_empty (extra_fields entry)))
        (λ _. read_algorithm entry >>= λ name. read_lengths entry >>= λ lengths.
          read_fields entry >>= λ fields. ok (build_entry name lengths fields))
        h in
    let (name, algorithm, h₂) =
      >>=-eq-ok (read_algorithm entry)
        (λ name. read_lengths entry >>= λ lengths.
          read_fields entry >>= λ fields. ok (build_entry name lengths fields))
        h₁ in
    let (lengths, fit, h₃) =
      >>=-eq-ok (read_lengths entry)
        (λ lengths. read_fields entry >>= λ fields. ok (build_entry name lengths fields)) h₂ in
    let (fields, _, done) =
      >>=-eq-ok (read_fields entry) (λ fields. ok (build_entry name lengths fields)) h₃ in
    subst IsValid (ok-injective done) (record {
      supported = read_algorithm_lem entry name algorithm;
      fits = read_lengths_lem entry lengths fit;
    })

abbrev pub AllValid : Dict SecurityProfileEntry → Type 0
AllValid profiles = (k : String) (p : SecurityProfileEntry) → lookup k profiles ≡ some p → IsValid p

insert-AllValid :
    (k : String) (p : SecurityProfileEntry) (profiles : Dict SecurityProfileEntry)
    → IsValid p
    → AllValid profiles
    → AllValid (insert k p profiles)
insert-AllValid k p profiles v all j q e = elim (lookup-insert_cases k j p q profiles e) [
  | inl same ↦ subst IsValid same v
  | inr old ↦ all j q old
]

load_entries-AllValid :
    (raw : Dict (Dict Value)) (profiles loaded : Dict SecurityProfileEntry)
    → AllValid profiles
    → load_entries raw profiles ≡ ok loaded
    → AllValid loaded
unfolding load_entries
load_entries-AllValid [] profiles loaded all e = subst AllValid (ok-injective e) all
load_entries-AllValid ((k, entry) ∷ raw) profiles loaded all e =
    let (p, e₁, e₂) =
      >>=-eq-ok (load_entry entry) (λ q. load_entries raw (insert k q profiles)) e in
    load_entries-AllValid raw (insert k p profiles) loaded
      (insert-AllValid k p profiles (load_entry-IsValid entry p e₁) all) e₂

-- What a reload has done, by how it ended.
abbrev pub Reloaded : SecurityProfile → SecurityProfile × Outcome (Unit {0}) → Type 0
Reloaded sp (sp', ok _) = AllValid sp'.profiles × (sp'.config_file ≡ sp.config_file)
Reloaded sp (sp', raised _) = sp' ≡ sp

replace_profiles-Reloaded :
    (sp : SecurityProfile) (r : Outcome (Dict SecurityProfileEntry))
    → ((profiles : Dict SecurityProfileEntry) → r ≡ ok profiles → AllValid profiles)
    → Reloaded sp (replace_profiles sp r)
unfolding replace_profiles
replace_profiles-Reloaded sp (ok profiles) h = (h profiles refl, refl)
replace_profiles-Reloaded sp (raised e) h = refl

empty-AllValid : AllValid []
unfolding lookup
empty-AllValid k p e = cc

-- A reload that succeeds leaves only profiles with a supported algorithm, whose two Classic CAN
-- lengths are both missing or sum to four, and leaves the file alone; a reload that raises changes
-- nothing.
pub reload-Reloaded : (sp : SecurityProfile) → Reloaded sp (reload sp)
unfolding reload
reload-Reloaded sp =
    replace_profiles-Reloaded sp (load_entries sp.config_file [])
      λ profiles e. load_entries-AllValid sp.config_file [] profiles empty-AllValid e
