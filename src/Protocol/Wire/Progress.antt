-- ===== src/Protocol/Wire/Progress.antt =====
-- How much of its stream `Read` takes.
use adb_remote.Prelude.{
  ℕ, ◌+◌, ◌-◌, ◌≤◌, ◌≡◌, Bool, true, false, List, length, take, drop, ok, err, panic, Result, Error,
  bind, pure, arith, length-drop, leb, ltb, Bool-cases, inl, inr, M, ◌>>=◌, ◌>>◌, get_state, lift,
  reject_if, if◌then◌else◌, slice, payload_too_large,
}
use adb_remote.Protocol.Message.{
  payload_length, Reading, read_full, load_header, read_header, read_payload, read_body, read,
  ensure_length,
}

-- What is left is no longer than `n`.
abbrev Within : {A : Type 0} → ℕ → Reading × Result A → Type 0
Within n (s, r) = length s.input ≤ n

bind-Within :
    {A B : Type 0} (n : ℕ) (x : Reading × Result A) (f : A → M Reading B)
    → Within n x
    → ((a : A) (s : Reading) → length s.input ≤ n → Within n (f a s))
    → Within n (bind x f)
bind-Within n (s, ok a) f h k = k a s h
bind-Within n (s, err e) f h k = h
bind-Within n (s, panic) f h k = h

reject_if-Within :
    (n : ℕ) (b : Bool) (e : Error) (s : Reading) → length s.input ≤ n → Within n (reject_if b e s)
reject_if-Within n true e s h = h
reject_if-Within n false e s h = h

read_full_rest : (n : ℕ) (input : List ℕ) → length (read_full n input).1 ≤ length input
unfolding read_full
read_full_rest n input = ground (arith, length-drop n input)

read_payload-Within : (n k : ℕ) (s : Reading) → length s.input ≤ n → Within n (read_payload k s)
unfolding read_payload
read_payload-Within n k s h = omega (arith, read_full_rest k s.input, h)

read_body-Within : (n k : ℕ) (s : Reading) → length s.input ≤ n → Within n (read_body k s)
unfolding read_body
read_body-Within n k s h =
    bind-Within n (lift (slice 0 k s.message.payload_buffer) s) _ h λ _ s' h'.
      bind-Within n (read_payload k s') _ (read_payload-Within n k s' h') λ len s3 h3.
        bind-Within n (ensure_length k len s3) _ (reject_if-Within n _ _ s3 h3) λ _ s4 h4.
          bind-Within n (lift (slice 0 k s4.message.payload_buffer) s4) _ h4
            λ bs s5 h5. reject_if-Within n _ _ s5 h5

-- What follows the header.
abbrev rest_of_read : ℕ → M Reading (Unit {0})
rest_of_read len = do
  ensure_length 12 len
  s ← get_state
  reject_if (ltb 61440 (payload_length s.message)) payload_too_large
  if ltb 0 (payload_length s.message) then read_body (payload_length s.message) else pure tt

either-Within :
    (n : ℕ) (b : Bool) (s : Reading) (k : ℕ)
    → length s.input ≤ n
    → Within n ((if b then read_body k else pure tt) s)
either-Within n true s k h = read_body-Within n k s h
either-Within n false s k h = h

rest_of_read-Within : (n len : ℕ) (s : Reading) → length s.input ≤ n → Within n (rest_of_read len s)
rest_of_read-Within n len s h =
    bind-Within n (ensure_length 12 len s) _ (reject_if-Within n _ _ s h) λ _ s' h'.
      bind-Within n (reject_if (ltb 61440 (payload_length s'.message)) payload_too_large s') _
        (reject_if-Within n _ _ s' h')
        λ _ s3 h3.
          either-Within n (ltb 0 (payload_length s'.message)) s3 (payload_length s'.message) h3

-- `Read` never gives bytes back, and a message that it lets through took at least its header.
pub read_takes :
    (s : Reading)
    → (length (read s).0.input ≤ length s.input)
      × ((read s).1 ≡ ok tt → 12 + length (read s).0.input ≤ length s.input)
unfolding read read_header read_full
read_takes s = elim (Bool-cases (leb 12 (length s.input))) [
  | inl e ↦
      let s' : Reading = record {
        message = load_header (take 12 s.input) s.message;
        input = drop 12 s.input;
      } in
      let left =
        rest_of_read-Within (length s.input - 12) 12 s' (omega (arith, length-drop 12 s.input)) in
      rw e (omega (arith, left), λ _. ground (arith, e, left))
  | inr e ↦ rw e (ground arith, λ ended. cc)
]
