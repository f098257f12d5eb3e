-- ===== src/Freshness.antt =====
-- sim/freshness_manager.py: the last accepted freshness value of each PDU, kept in memory, and the
-- window in which the next one must lie.
pub mod Residue
pub mod Window
use sec_oc.Base.{ℕ, ◌+◌, ◌-◌, ◌*◌, ◌/◌, String, Bool, true, false, ◌&&◌, ltb, leb, if◌then◌else◌}
use sec_oc.Base.{Outcome, ok, ◌>>=◌}
use sec_oc.Base.Bytes.{modulus}
use sec_oc.Nvm.{Nvm, read, write}
use sec_oc.Nvm.Values.{Value, integer, array, nil, as_int}
use sec_oc.Nvm.Keys.{last_valid_key, window_key}

-- The fields that `FreshnessManager.__init__` sets; the memory that it shares is an argument.
pub record FreshnessManager : Type 0 where
  pub window_size : ℕ
  pub freshness_length : ℕ

-- `load_last_valid_freshness`
unfoldable pub load_last_valid_freshness : String → Nvm → Value
load_last_valid_freshness pdu_id nvm = read (last_valid_key pdu_id) (integer 0) nvm

-- The candidate of `validate_freshness`, for the modulus `m`.
unfoldable pub reconstruct : ℕ → ℕ → ℕ → ℕ
reconstruct m last_valid truncated =
    let base = last_valid / m * m in
    let candidate = base + truncated in
    if leb candidate last_valid then candidate + m else candidate

unfoldable pub in_window : ℕ → ℕ → ℕ → Bool × ℕ
in_window window last_valid candidate =
    let delta = candidate - last_valid in
    if ltb 0 delta && leb delta window then (true, candidate) else (false, 0)

-- `validate_freshness`
unfoldable pub validate_freshness : FreshnessManager → String → ℕ → Nvm → Outcome (Bool × ℕ)
unfolding reconstruct in_window load_last_valid_freshness
validate_freshness fm pdu_id truncated nvm = do
  last_valid ← as_int (load_last_valid_freshness pdu_id nvm)
  ok (
      in_window fm.window_size last_valid
        (reconstruct (modulus fm.freshness_length) last_valid truncated))

-- `commit_freshness`
unfoldable pub commit_freshness : String → ℕ → Nvm → Nvm
commit_freshness pdu_id full_value nvm =
    write (window_key pdu_id) (array nil) (write (last_valid_key pdu_id) (integer full_value) nvm)

-- `reinitialize_window`
unfoldable pub reinitialize_window : String → ℕ → Nvm → Nvm
reinitialize_window pdu_id resync_value nvm =
    write (window_key pdu_id) (array nil) (write (last_valid_key pdu_id) (integer resync_value) nvm)
