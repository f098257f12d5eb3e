-- ===== src/Pdu/Refusal.antt =====
-- Which frames `parse_secured_pdu` of sim/pdu_manager.py refuses.
use sec_oc.Base.{
  ◌↔◌, inl, inr, ℕ, ◌+◌, ◌-◌, ◌<◌, ◌≡◌, ◌≢◌, arith, length, length-take, ok, raised, value_error,
  ◌⊎◌,
}
use sec_oc.Base.Bytes.{Bytes}
use sec_oc.Profile.{Transport, classic_can, can_fd, SecurityProfileEntry, truncation_lengths}
use sec_oc.Pdu.{authentic_part, payload_fits, parse_lengths, parse_secured_pdu}
use sec_oc.Pdu.RoundTrip.{parse_secured_pdu_lem}

-- A frame that no parse accepts: too short for its trailer, or on Classic CAN not four bytes longer.
abbrev pub IsMalformed : Transport → ℕ → ℕ → Type 0
IsMalformed classic_can size trailer = (size < trailer) ⊎ (size ≢ 4 + trailer)
IsMalformed can_fd size trailer = size < trailer

parse_lengths_refuses :
    (pdu : Bytes) (t : Transport) (n m : ℕ)
    → n + m ≢ 0
    → (parse_lengths pdu t n m ≡ raised value_error) ↔ IsMalformed t (length pdu) (n + m)
unfolding parse_lengths payload_fits authentic_part
parse_lengths_refuses pdu classic_can n m nz =
    ((λ h. ground (arith, length-take (length pdu - (n + m)) pdu)), refused)
  where
    refused :
        IsMalformed classic_can (length pdu) (n + m)
        → parse_lengths pdu classic_can n m ≡ raised value_error
    refused (inl small) = ground arith
    refused (inr odd) = ground (arith, length-take (length pdu - (n + m)) pdu)
parse_lengths_refuses pdu can_fd n m nz = ((λ h. ground arith), (λ small. ground arith))

-- With two lengths that are not both 0, `parse_secured_pdu` raises ValueError exactly on the frames
-- that are too short for field and authenticator and, on Classic CAN, on those that do not leave a
-- payload of four bytes.
pub parse_secured_pdu_refuses :
    (pdu : Bytes) (p : SecurityProfileEntry) (t : Transport) (n m : ℕ)
    → truncation_lengths p t ≡ ok (n, m)
    → n + m ≢ 0
    → (parse_secured_pdu pdu p t ≡ raised value_error) ↔ IsMalformed t (length pdu) (n + m)
parse_secured_pdu_refuses pdu p t n m lengths nz =
    rw (parse_secured_pdu_lem pdu p t n m lengths) (parse_lengths_refuses pdu t n m nz)
