-- ===== src/Nvm/Keys.antt =====
-- The names under which sim/freshness_manager.py and sim/key_storage.py keep their values in the one
-- memory of sim/nvm.py, and why they do not meet.
use Prim.Native.Char.{Char, code}
use Prim.Native.String.{◌∷◌, ◌++◌, count}
use text.Mathlib.TextLemmas.{
  append_cancel_left, append_cancel_right, append_inj, append_assoc, cons-append,
  head-eq_of_cons-eq, length-append,
}
use sec_oc.Base.{◌≡◌, ◌≢◌, String, refl, sym, ap, ◌∙◌, arith, eq_iff}

-- `f"freshness_{pdu_id}_last_valid"`
unfoldable pub last_valid_key : String → String
last_valid_key pdu_id = "freshness_" ++ (pdu_id ++ "_last_valid")

-- `f"freshness_{pdu_id}_anti_replay_window"`
unfoldable pub window_key : String → String
window_key pdu_id = "freshness_" ++ (pdu_id ++ "_anti_replay_window")

-- `f"key_meta_{pdu_id}"`
unfoldable pub key_meta_key : String → String
key_meta_key pdu_id = "key_meta_" ++ pdu_id

pub last_valid_key-injective : (p q : String) → last_valid_key p ≡ last_valid_key q → p ≡ q
unfolding last_valid_key
last_valid_key-injective p q e =
    append_cancel_right p q "_last_valid"
      (append_cancel_left "freshness_" (p ++ "_last_valid") (q ++ "_last_valid") e)

pub key_meta_key-injective : (p q : String) → key_meta_key p ≡ key_meta_key q → p ≡ q
unfolding key_meta_key
key_meta_key-injective p q e = append_cancel_left "key_meta_" p q e

-- Two texts that end in different letters differ.
last_differs : (s t u v : String) → count u ≡ 1 → count v ≡ 1 → u ≢ v → s ++ u ≢ t ++ v
last_differs s t u v one_u one_v ne e =
    ne ((append_inj e (omega (arith, length-append s u, length-append t v, ap count e))).1)

pub last_valid_key-ne-window_key : (p q : String) → last_valid_key p ≢ window_key q
unfolding last_valid_key window_key
last_valid_key-ne-window_key p q e =
    last_differs (p ++ "_last_vali") (q ++ "_anti_replay_windo") "d" "w" refl refl
      (λ h. cc ((eq_iff "d" "w").1 h))
      (append_assoc p "_last_vali" "d"
        ∙ append_cancel_left "freshness_" (p ++ "_last_valid") (q ++ "_anti_replay_window") e
        ∙ sym (append_assoc q "_anti_replay_windo" "w"))

-- Two texts that begin with different letters differ.
first_differs : (a b : Char) (s t u v : String) → a ≢ b → (a ∷ s) ++ u ≢ (b ∷ t) ++ v
first_differs a b s t u v ne e =
    ne (head-eq_of_cons-eq (sym (cons-append a s u) ∙ e ∙ cons-append b t v))

pub last_valid_key-ne-key_meta_key : (p q : String) → last_valid_key p ≢ key_meta_key q
unfolding last_valid_key key_meta_key
last_valid_key-ne-key_meta_key p q e =
    first_differs "f" "k" "reshness_" "ey_meta_" (p ++ "_last_valid") q
      (λ h. absurd (omega (arith, ap code h))) e

-- The keys of the boot hashes begin with another letter.
key_meta_key-ne-boot : (q s : String) → key_meta_key q ≢ ("b" ∷ s) ++ ""
unfolding key_meta_key
key_meta_key-ne-boot q s e =
    first_differs "k" "b" "ey_meta_" s q "" (λ h. absurd (omega (arith, ap code h))) e

pub key_meta_key-ne-boot_code : (q : String) → key_meta_key q ≢ "boot_golden_hash_code"
key_meta_key-ne-boot_code q e = key_meta_key-ne-boot q "oot_golden_hash_code" e

pub key_meta_key-ne-boot_config : (q : String) → key_meta_key q ≢ "boot_golden_hash_config"
key_meta_key-ne-boot_config q e = key_meta_key-ne-boot q "oot_golden_hash_config" e

pub key_meta_key-ne-boot_keys : (q : String) → key_meta_key q ≢ "boot_golden_hash_keys"
key_meta_key-ne-boot_keys q e = key_meta_key-ne-boot q "oot_golden_hash_keys" e

last_valid_key-ne-boot : (q s : String) → last_valid_key q ≢ ("b" ∷ s) ++ ""
unfolding last_valid_key
last_valid_key-ne-boot q s e =
    first_differs "f" "b" "reshness_" s (q ++ "_last_valid") ""
      (λ h. absurd (omega (arith, ap code h))) e

pub last_valid_key-ne-boot_code : (q : String) → last_valid_key q ≢ "boot_golden_hash_code"
last_valid_key-ne-boot_code q e = last_valid_key-ne-boot q "oot_golden_hash_code" e

pub last_valid_key-ne-boot_config : (q : String) → last_valid_key q ≢ "boot_golden_hash_config"
last_valid_key-ne-boot_config q e = last_valid_key-ne-boot q "oot_golden_hash_config" e

pub last_valid_key-ne-boot_keys : (q : String) → last_valid_key q ≢ "boot_golden_hash_keys"
last_valid_key-ne-boot_keys q e = last_valid_key-ne-boot q "oot_golden_hash_keys" e
