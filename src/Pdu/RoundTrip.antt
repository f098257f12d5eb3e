-- ===== src/Pdu/RoundTrip.antt =====
-- A Secured I-PDU that sim/pdu_manager.py builds is parsed back into its parts, and whatever is
-- parsed is the concatenation of its parts.
use native.Mathlib.Nat.{mod-lt}
use sec_oc.Base.{
  >>=-eq-ok, ℕ, ◌+◌, ◌-◌, ◌%◌, ◌≤◌, ◌≡◌, ◌≢◌, refl, sym, ap, ◌∙◌, true, false, [], ◌∷◌, ◌++◌, arith,
  length, take, drop, length-append, length-take, length-drop, take-append-drop, drop-drop,
  drop_all, take-append_left, drop-append_left, append_assoc, ok, ltb, ◌>>=◌,
}
use sec_oc.Base.Bytes.{
  Bytes, modulus, to_bytes-mod, big_endian, length-big_endian, from_bytes, from_bytes-big_endian,
  from_end, slice, modulus_pos,
}
use sec_oc.Profile.{Transport, classic_can, can_fd, SecurityProfileEntry, truncation_lengths}
use sec_oc.Pdu.{
  serialize, deserialize, freshness_field, build_secured_pdu, Parts, authentic_part, freshness_part,
  mac_part, payload_fits, parse_lengths, parse_secured_pdu,
}

-- The truncated freshness field never overflows: it is the big-endian form of the low bytes.
pub freshness_field_lem : (v n : ℕ) → freshness_field v n ≡ ok (big_endian n (v % modulus n))
unfolding freshness_field
freshness_field_lem v n = to_bytes-mod n v

slice_middle :
    (a b c : Bytes) (i j : ℕ)
    → i ≡ length a
    → j ≡ length a + length b
    → slice (a ++ (b ++ c)) i j ≡ b
slice_middle a b c i j e d =
    rw (drop-append_left a (b ++ c) i e) (take-append_left b c (j - i) (omega arith))

drop_last_part : (a b c : Bytes) (i : ℕ) → i ≡ length a + length b → drop i (a ++ (b ++ c)) ≡ c
drop_last_part a b c i e =
    rw (← append_assoc a b c) (drop-append_left (a ++ b) c i (omega (arith, length-append a b)))

eq_nil_of_length : (c : Bytes) → length c ≡ 0 → c ≡ []
eq_nil_of_length [] h = refl
eq_nil_of_length (x ∷ c) h = absurd (omega arith)

-- A Classic CAN payload has exactly four bytes.
abbrev pub PayloadFits : Transport → Bytes → Type 0
PayloadFits classic_can a = length a ≡ 4
PayloadFits can_fd a = Unit

payload_fits_of : (t : Transport) (a : Bytes) → PayloadFits t a → payload_fits t a ≡ true
unfolding payload_fits
payload_fits_of classic_can a h = ground arith
payload_fits_of can_fd a h = refl

payload_fits_only : (t : Transport) (a : Bytes) → payload_fits t a ≡ true → PayloadFits t a
unfolding payload_fits
payload_fits_only classic_can a h = ground arith
payload_fits_only can_fd a h = tt

-- The layout of the frame, as lists: payload `a`, freshness `f`, authenticator `c`.
module _ (a f c : Bytes) (n m : ℕ) (fn : length f ≡ n) (cm : length c ≡ m) where
  abbrev frame : Bytes
  frame = a ++ (f ++ c)

  length-frame : length frame ≡ length a + (n + m)
  length-frame = omega (arith, length-append a (f ++ c), length-append f c)

  authentic_part-frame : n + m ≢ 0 → authentic_part frame (n + m) ≡ a
  unfolding authentic_part
  authentic_part-frame h =
      ground (arith, take-append_left a (f ++ c) (length frame - (n + m)), length-frame)

  freshness_part-frame : n + m ≢ 0 → freshness_part frame (n + m) m ≡ f
  unfolding freshness_part
  freshness_part-frame h =
      slice_middle a f c _ _ (ground (arith, length-frame)) (omega (arith, length-frame))

  mac_part-frame : mac_part frame m ≡ c
  unfolding mac_part
  mac_part-frame =
      ground (arith, length-frame, drop_last_part a f c (length frame - m), eq_nil_of_length c)

  parse_lengths-frame :
      (t : Transport)
      → n + m ≢ 0
      → payload_fits t a ≡ true
      → parse_lengths frame t n m
        ≡ ok (record { authentic_pdu = a; freshness_value = from_bytes f; mac = c })
  unfolding parse_lengths deserialize
  parse_lengths-frame t h fit =
      let long : ltb (length frame) (n + m) ≡ false = ground (arith, length-frame) in
      rw (long, authentic_part-frame h, fit, freshness_part-frame h, mac_part-frame)

-- What `build_secured_pdu` returns, where the profile gives both lengths.
pub build_secured_pdu_lem :
    (a c : Bytes) (v : ℕ) (p : SecurityProfileEntry) (t : Transport) (n m : ℕ)
    → truncation_lengths p t ≡ ok (n, m)
    → build_secured_pdu a v c p t ≡ ok (a ++ (big_endian n (v % modulus n) ++ c))
unfolding build_secured_pdu serialize
build_secured_pdu_lem a c v p t n m lengths = rw (lengths, freshness_field_lem v n)

-- A frame built for a profile and a transport is parsed, for the same profile and transport, into
-- its payload, the low bytes of its freshness value and its authenticator: if the two lengths are
-- not both 0, the authenticator has its length, and a Classic CAN payload has four bytes.
pub parse-build :
    (a c : Bytes) (v : ℕ) (p : SecurityProfileEntry) (t : Transport) (n m : ℕ)
    → truncation_lengths p t ≡ ok (n, m)
    → n + m ≢ 0
    → length c ≡ m
    → PayloadFits t a
    → (build_secured_pdu a v c p t >>= λ pdu. parse_secured_pdu pdu p t)
      ≡ ok (record { authentic_pdu = a; freshness_value = v % modulus n; mac = c })
unfolding build_secured_pdu parse_secured_pdu serialize
parse-build a c v p t n m lengths h cm fit =
    rw (lengths, freshness_field_lem v n)
      (rw
        (parse_lengths-frame a (big_endian n (v % modulus n)) c n m
          (length-big_endian n (v % modulus n)) cm t h (payload_fits_of t a fit))
        (rw (from_bytes-big_endian n (v % modulus n) (mod-lt v (modulus_pos n)))))

mac_part_lem : (pdu : Bytes) (m : ℕ) → mac_part pdu m ≡ drop (length pdu - m) pdu
unfolding mac_part
mac_part_lem pdu m = ground (arith, drop_all (length pdu - m) pdu)

module _ (pdu : Bytes) (n m : ℕ) (h : n + m ≢ 0) (long : n + m ≤ length pdu) where
  authentic_part_lem : authentic_part pdu (n + m) ≡ take (length pdu - (n + m)) pdu
  unfolding authentic_part
  authentic_part_lem = ground arith

  freshness_part_lem : freshness_part pdu (n + m) m ≡ take n (drop (length pdu - (n + m)) pdu)
  unfolding freshness_part
  freshness_part_lem =
      let e : from_end (length pdu) (n + m) ≡ length pdu - (n + m) = ground arith in
      rw e (ap (λ j. take j (drop (length pdu - (n + m)) pdu)) (omega arith))

  -- The three cuts of a frame that is long enough, put together again.
  parts-append :
      authentic_part pdu (n + m) ++ (freshness_part pdu (n + m) m ++ mac_part pdu m) ≡ pdu
  parts-append =
      let k : ℕ = length pdu - (n + m) in
      let e : length pdu - m ≡ k + n = omega arith in
      rw
        (
          authentic_part_lem,
          freshness_part_lem,
          mac_part_lem,
          ← drop-drop k n (length pdu - m) pdu e,
        )
        (rw (take-append-drop n (drop k pdu)) (take-append-drop k pdu))

-- What parsing returns, read as a statement about the frame.
pub record IsFrame (pdu : Bytes) (n m : ℕ) (t : Transport) (parts : Parts) (f : Bytes)
    : Type 0 where
  pub layout : parts.authentic_pdu ++ (f ++ parts.mac) ≡ pdu
  pub length_field : length f ≡ n
  pub length_mac : length parts.mac ≡ m
  pub value : from_bytes f ≡ parts.freshness_value
  pub payload : PayloadFits t parts.authentic_pdu

module _ (pdu : Bytes) (t : Transport) (n m : ℕ) (parts : Parts)
    (e : parse_lengths pdu t n m ≡ ok parts) where
  parse_lengths_inv :
      (n + m ≤ length pdu)
      × (payload_fits t (authentic_part pdu (n + m)) ≡ true)
      × (parts ≡ record {
        authentic_pdu = authentic_part pdu (n + m);
        freshness_value = from_bytes (freshness_part pdu (n + m) m);
        mac = mac_part pdu m;
      })
  unfolding parse_lengths deserialize
  parse_lengths_inv = ground arith

  parse_lengths-IsFrame : n + m ≢ 0 → IsFrame pdu n m t parts (freshness_part pdu (n + m) m)
  parse_lengths-IsFrame h =
      let (long, fit, shape) = parse_lengths_inv in
      rw shape (record {
        layout = parts-append pdu n m h long;
        length_field = rw (freshness_part_lem pdu n m h long) (
            omega (
              arith,
              length-take n (drop (length pdu - (n + m)) pdu),
              length-drop (length pdu - (n + m)) pdu,
            ));
        length_mac = rw (mac_part_lem pdu m) (omega (arith, length-drop (length pdu - m) pdu));
        value = refl;
        payload = payload_fits_only t (authentic_part pdu (n + m)) fit;
      })

module _ (pdu : Bytes) (p : SecurityProfileEntry) (t : Transport) (n m : ℕ)
    (lengths : truncation_lengths p t ≡ ok (n, m)) where
  pub parse_secured_pdu_lem : parse_secured_pdu pdu p t ≡ parse_lengths pdu t n m
  unfolding parse_secured_pdu
  parse_secured_pdu_lem = rw lengths

  -- Whatever is parsed, with two lengths that are not both 0, is the frame cut in three: payload,
  -- field and authenticator put together are the frame, the field and the authenticator have the
  -- profile's lengths, the value is the field's, and a Classic CAN payload has four bytes.
  pub parse_secured_pdu-IsFrame :
      (parts : Parts)
      → n + m ≢ 0
      → parse_secured_pdu pdu p t ≡ ok parts
      → (f : Bytes) × IsFrame pdu n m t parts f
  parse_secured_pdu-IsFrame parts h e = (
    freshness_part pdu (n + m) m,
    parse_lengths-IsFrame pdu t n m parts (sym parse_secured_pdu_lem ∙ e) h,
  )

-- A frame that is parsed has a profile that gives both lengths.
pub parse_lengths_known :
    (pdu : Bytes) (profile : SecurityProfileEntry) (t : Transport) (parts : Parts)
    → parse_secured_pdu pdu profile t ≡ ok parts
    → (n : ℕ) × (m : ℕ) × (truncation_lengths profile t ≡ ok (n, m))
unfolding parse_secured_pdu
parse_lengths_known pdu profile t parts h =
    let (lengths, e, _) =
      >>=-eq-ok (truncation_lengths profile t) (λ (n, m). parse_lengths pdu t n m) h in
    (lengths.0, lengths.1, e)
