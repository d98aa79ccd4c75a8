-- ===== src/UartSlip/Accept.antt =====
-- Which frames the receive loop takes for the response, and what it makes of the others.
use morse_cli.Base.{
  ℕ, ◌+◌, ◌-◌, ◌/◌, ◌^◌, ◌≤◌, ◌≡◌, ◌↔◌, ap, ◌∙◌, arith, Bool, true, false, not, ◌&&◌, if◌then◌else◌,
  Bool-cases, inl, inr, length-drop, bit_and, ==-refl, leb, [], ◌∷◌, ◌++◌, Bytes, length, take,
  drop, get_or, take-length, take-append_left, get_or-append_left, get_or-append_right,
  drop-append_left, drop-length_append, append_assoc, append-nil, sym, length-append, take_add,
  last_two,
}
use morse_cli.Crc.{morse_crc16}
use morse_cli.Transport.{slice, etranssucc}
use morse_cli.UartSlip.{bytes_eq, RxLoop, returned, crc_mismatch, check_frame, ignore_frame}
use mathlib.Core.Path.{ap₂}

-- A body with its checksum behind it, low byte first, and what answers a command: the payload, the
-- command's sequence number, and the checksum of both.
abbrev pub crc_octets : Bytes → Bytes
crc_octets body = bit_and (morse_crc16 0 body) 0xff ∷ bit_and (morse_crc16 0 body / 2 ^ 8) 0xff ∷ []

abbrev pub response : Bytes → Bytes → Bytes
response payload seq = (payload ++ seq) ++ crc_octets (payload ++ seq)

pub bytes_eq_iff : (a b : Bytes) → (bytes_eq a b ≡ true) ↔ (a ≡ b)
unfolding bytes_eq
bytes_eq_iff (x ∷ a) (y ∷ b) = ground (arith, bytes_eq_iff a b)
bytes_eq_iff _ _ = ground arith

pub crc_mismatch-crc_octets :
    (body junk : Bytes) → crc_mismatch (body ++ (crc_octets body ++ junk)) (length body) ≡ false
unfolding crc_mismatch
crc_mismatch-crc_octets body junk =
    let rest = crc_octets body ++ junk in
    let front : take (length body) (body ++ rest) ≡ body =
      take-append_left body rest (length body) (omega arith) ∙ take-length body in
    let lo : get_or (body ++ rest) (length body) 0 ≡ bit_and (morse_crc16 0 body) 0xff =
      ap (λ k. get_or (body ++ rest) k 0) (omega arith) ∙ get_or-append_right body rest 0 0 in
    let hi = get_or-append_right body rest 1 0 in rw front (rw lo (rw hi (simp ==-refl)))

-- The test of the checksum reads no further than the two octets behind the body.
crc_mismatch-append :
    (frame junk : Bytes) (n : ℕ)
    → n + 2 ≤ length frame
    → crc_mismatch (frame ++ junk) n ≡ crc_mismatch frame n
unfolding crc_mismatch
crc_mismatch-append frame junk n h = rw (take-append_left frame junk n (omega arith)) (
    rw (get_or-append_left frame junk n 0 (omega arith))
      (rw (get_or-append_left frame junk (n + 1) 0 (omega arith))))

slice-append :
    (frame junk : Bytes) (offset n : ℕ)
    → offset + n ≤ length frame
    → slice (frame ++ junk) offset n ≡ slice frame offset n
slice-append frame junk offset n h =
    ap (take n) (drop-append_left frame junk offset (omega arith))
    ∙ take-append_left (drop offset frame) junk n (omega (arith, length-drop offset frame))

-- A frame that answers the command with the sequence number `seq`: long enough, with its checksum,
-- and with that number.
unfoldable pub accepts : Bytes → Bytes → Bool
accepts seq frame =
    leb 6 (length frame)
    && (not (crc_mismatch frame (length frame - 2))
        && bytes_eq seq (slice frame (length frame - 2 - 4) 4))

-- What is left of `data_len` when a frame is passed over.
unfoldable pub ignored_len : Bytes → Bytes → ℕ
ignored_len seq frame =
    if not (leb 6 (length frame))
    then length frame
    else if crc_mismatch frame (length frame - 2)
    then length frame - 2
    else length frame - 2 - 4

pub check_frame-accepts :
    (seq : Bytes) (rx : RxLoop) (frame junk : Bytes)
    → rx.slip.buffer ≡ frame ++ junk
    → rx.slip.length ≡ length frame
    → check_frame seq rx ≡ (
        if accepts seq frame
        then returned etranssucc (record rx { data_len = length frame - 2 - 4 })
        else ignore_frame rx (ignored_len seq frame))
unfolding check_frame accepts ignored_len
check_frame-accepts seq rx frame junk eb el = elim (Bool-cases (leb 6 (length frame))) [
  | inl long ↦
      let crc : crc_mismatch rx.slip.buffer (rx.slip.length - 2)
          ≡ crc_mismatch frame (length frame - 2) =
        ap₂ crc_mismatch eb (ap (λ (n : ℕ). n - 2) el)
        ∙ crc_mismatch-append frame junk (length frame - 2) (ground arith) in
      let num : slice rx.slip.buffer (rx.slip.length - 2 - 4) 4
          ≡ slice frame (length frame - 2 - 4) 4 =
        ap₂ (λ b n. slice b n 4) eb (ap (λ (n : ℕ). n - 2 - 4) el)
        ∙ slice-append frame junk (length frame - 2 - 4) 4 (ground arith) in
      ground (arith, crc, num, el, ap (bytes_eq seq) num)
  | inr short ↦ ground arith
]

module _ (payload seq : Bytes) (four : length seq ≡ 4) where
  pub response_len : length (response payload seq) ≡ length payload + 4 + 2
  response_len =
      length-append (payload ++ seq) (crc_octets (payload ++ seq))
      ∙ omega (arith, length-append payload seq)

  -- The answer to a command is accepted.
  pub accepts-response : accepts seq (response payload seq) ≡ true
  unfolding accepts
  accepts-response =
      let body = payload ++ seq in
      let frame = response payload seq in
      let len : length frame - 2 ≡ length body =
        omega (arith, response_len, length-append payload seq) in
      let len' : length frame - 2 - 4 ≡ length payload = omega (arith, response_len) in
      let crc : crc_mismatch frame (length frame - 2) ≡ false =
        ap (crc_mismatch frame) len
        ∙ ap (λ r. crc_mismatch (body ++ r) (length body)) (sym (append-nil (crc_octets body)))
        ∙ crc_mismatch-crc_octets body [] in
      let num : slice frame (length frame - 2 - 4) 4 ≡ seq =
        ap (λ n. slice frame n 4) len'
        ∙ ap (λ f. slice f (length payload) 4) (append_assoc payload seq (crc_octets body))
        ∙ ap (take 4) (drop-length_append payload (seq ++ crc_octets body))
        ∙ take-append_left seq (crc_octets body) 4 (omega arith)
        ∙ ap (λ n. take n seq) (sym four)
        ∙ take-length seq in
      ground (
        arith,
        response_len,
        crc,
        (bytes_eq_iff seq (slice frame (length frame - 2 - 4) 4)).1 (sym num),
      )

-- The octets that the test of the checksum compares.
crc_mismatch_inv :
    (frame : Bytes) (n : ℕ)
    → crc_mismatch frame n ≡ false
    → (get_or frame n 0 ≡ bit_and (morse_crc16 0 (take n frame)) 0xff)
      × (get_or frame (n + 1) 0 ≡ bit_and (morse_crc16 0 (take n frame) / 2 ^ 8) 0xff)
unfolding crc_mismatch
crc_mismatch_inv frame n h = ground arith

accepts_inv :
    (seq frame : Bytes)
    → accepts seq frame ≡ true
    → frame ≡ response (take (length frame - 2 - 4) frame) seq
unfolding accepts
accepts_inv seq frame h =
    let n = length frame - 2 - 4 in
    let n' = length frame - 2 in
    let long : leb 6 (length frame) ≡ true = ground arith in
    let crc : crc_mismatch frame n' ≡ false = ground arith in
    let num : bytes_eq seq (slice frame n 4) ≡ true = ground arith in
    let (lo, hi) = crc_mismatch_inv frame n' crc in
    let body : take n' frame ≡ take n frame ++ seq =
      ap (λ k. take k frame) (ground arith)
      ∙ take_add frame n 4
      ∙ ap (λ t. take n frame ++ t) (sym ((bytes_eq_iff seq (slice frame n 4)).0 num)) in
    last_two frame n' 0 (ground arith)
    ∙ ap₂ (λ a b. take n' frame ++ (a ∷ b ∷ [])) lo hi
    ∙ ap (λ b. b ++ crc_octets b) body

-- A frame is taken for the response if and only if it is some payload with the command's sequence
-- number and the checksum of both behind it.
pub accepts_iff :
    (seq frame : Bytes)
    → length seq ≡ 4
    → (accepts seq frame ≡ true) ↔ ((payload : Bytes) × (frame ≡ response payload seq))
accepts_iff seq frame four = (
  λ h. (take (length frame - 2 - 4) frame, accepts_inv seq frame h),
  λ p. ap (accepts seq) p.1 ∙ accepts-response p.0 seq four,
)
