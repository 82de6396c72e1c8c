-- ===== src/Client/SmartSocket/Devices.antt =====
-- The device list of client/adb/smartSocket.go: what the parser reads back, and that its fuel is enough.
use adb_remote.Prelude.{
  ℕ, zero, suc, ◌≤◌, ◌<◌, ◌≡◌, refl, false, List, [], ◌∷◌, ◌++◌, ◌==◌, length, drop, length-append,
  length-drop, arith, Bool-cases, inl, inr, ok, panic, ap, ◌⊎◌, Result, ◌∙◌, ==_refl,
}
use adb_remote.Client.SmartSocket.{Device, span_to, add_device, device_entry, parse_devices}

-- No byte of the list is `b`.
abbrev pub Without : ℕ → List ℕ → Type 0
Without b [] = Unit {0}
Without b (c ∷ cs) = ((c == b) ≡ false) × Without b cs

span_to-append : (b : ℕ) (xs ys : List ℕ) → Without b xs → span_to b (xs ++ b ∷ ys) ≡ (xs, b ∷ ys)
unfolding span_to
span_to-append b [] ys w = rw (==_refl b)
span_to-append b (c ∷ cs) ys (h, w) = rw (h, span_to-append b cs ys w)

span_to_all : (b : ℕ) (xs : List ℕ) → Without b xs → span_to b xs ≡ (xs, [])
unfolding span_to
span_to_all b [] w = refl
span_to_all b (c ∷ cs) (h, w) = rw (h, span_to_all b cs w)

length-span_to-le : (b : ℕ) (xs : List ℕ) → length (span_to b xs).1 ≤ length xs
unfolding span_to
length-span_to-le b [] = omega arith
length-span_to-le b (c ∷ cs) = elim (Bool-cases (c == b)) [
  | inl e ↦ rw e (omega arith)
  | inr e ↦ rw e (omega (arith, length-span_to-le b cs))
]

List-split : (xs : List ℕ) → (xs ≡ []) ⊎ ((x : ℕ) × (rest : List ℕ) × (xs ≡ x ∷ rest))
List-split [] = inl refl
List-split (x ∷ xs) = inr (x, xs, refl)

-- What is left of a body behind its first entry.
abbrev behind_entry : List ℕ → List ℕ
behind_entry body = drop 1 (span_to 10 (drop 1 (span_to 9 body).1)).1

length-behind_entry : (c : ℕ) (cs : List ℕ) → length (behind_entry (c ∷ cs)) ≤ length cs
length-behind_entry c cs =
    let after_id = (span_to 9 (c ∷ cs)).1 in
    let after_kind = (span_to 10 (drop 1 after_id)).1 in
    omega (
      arith,
      length-span_to-le 9 (c ∷ cs),
      length-span_to-le 10 (drop 1 after_id),
      length-drop 1 after_id,
      length-drop 1 after_kind,
    )

-- The loop ends within as many rounds as the body has bytes: more fuel changes nothing.
pub parse_devices_fuel :
    (f g : ℕ) (body : List ℕ)
    → length body ≤ f
    → length body ≤ g
    → parse_devices f body ≡ parse_devices g body
unfolding parse_devices
parse_devices_fuel zero zero body p q = refl
parse_devices_fuel zero (suc g) [] p q = refl
parse_devices_fuel zero (suc g) (c ∷ cs) p q = absurd (omega arith)
parse_devices_fuel (suc f) zero [] p q = refl
parse_devices_fuel (suc f) zero (c ∷ cs) p q = absurd (omega arith)
parse_devices_fuel (suc f) (suc g) [] p q = refl
parse_devices_fuel (suc f) (suc g) (c ∷ cs) p q =
    let small = length-behind_entry c cs in
    let (id, after_id) = span_to 9 (c ∷ cs) in
    let kind = (span_to 10 (drop 1 after_id)).0 in
    ap (device_entry after_id (record { id = id; kind = kind }))
      (parse_devices_fuel f g (behind_entry (c ∷ cs)) (omega arith) (omega arith))

-- The answer of an adb server to `host:devices`, with more behind it.
unfoldable pub render : List Device → List ℕ → List ℕ
render [] more = more
render (d ∷ ds) more = d.id ++ 9 ∷ (d.kind ++ 10 ∷ render ds more)

abbrev pub IsPrintable : List Device → Type 0
IsPrintable [] = Unit {0}
IsPrintable (d ∷ ds) = Without 9 d.id × Without 10 d.kind × IsPrintable ds

parse_entry :
    (f : ℕ) (body id kind rest : List ℕ)
    → 0 < length body
    → span_to 9 body ≡ (id, 9 ∷ (kind ++ 10 ∷ rest))
    → Without 10 kind
    → parse_devices (suc f) body
      ≡ add_device (record { id = id; kind = kind }) (parse_devices f rest)
unfolding parse_devices
parse_entry f [] id kind rest some e w = absurd (omega arith)
parse_entry f (c ∷ cs) id kind rest some e w = rw (e, span_to-append 10 kind rest w) refl

add_all : List Device → Result (List Device) → Result (List Device)
add_all [] r = r
add_all (d ∷ ds) r = add_device d (add_all ds r)

add_all-ok : (ds : List Device) → add_all ds (ok []) ≡ ok ds
unfolding add_all
add_all-ok [] = refl
add_all-ok (d ∷ ds) = rw (add_all-ok ds)

add_all-panic : (ds : List Device) → add_all ds panic ≡ panic
unfolding add_all
add_all-panic [] = refl
add_all-panic (d ∷ ds) = rw (add_all-panic ds)

parse_devices-render_all :
    (f : ℕ) (ds : List Device) (more : List ℕ)
    → IsPrintable ds
    → length (render ds more) ≤ f
    → parse_devices f (render ds more) ≡ add_all ds (parse_devices (length more) more)
unfolding render add_all
parse_devices-render_all f [] more w h = parse_devices_fuel f (length more) more h (omega arith)
parse_devices-render_all zero (d ∷ ds) more w h =
    absurd (omega (arith, length-append d.id (9 ∷ (d.kind ++ 10 ∷ render ds more))))
parse_devices-render_all (suc f) (d ∷ ds) more (wid, wkind, w) h =
    let rest = render ds more in
    let body = d.id ++ 9 ∷ (d.kind ++ 10 ∷ rest) in
    let long = length-append d.id (9 ∷ (d.kind ++ 10 ∷ rest)) in
    let long' = length-append d.kind (10 ∷ rest) in
    parse_entry f body d.id d.kind rest (omega (arith, long))
      (span_to-append 9 d.id (d.kind ++ 10 ∷ rest) wid) wkind
    ∙ rw (parse_devices-render_all f ds more w (omega (arith, long, long')))

-- A list of devices is read back from what the adb server answers.
pub parse_devices-render :
    (ds : List Device)
    → IsPrintable ds
    → parse_devices (length (render ds [])) (render ds []) ≡ ok ds
parse_devices-render ds w =
    parse_devices-render_all (length (render ds [])) ds [] w (omega arith)
    ∙ unfold parse_devices in add_all-ok ds

parse_devices-untabbed :
    (c : ℕ) (cs : List ℕ) → Without 9 (c ∷ cs) → parse_devices (length (c ∷ cs)) (c ∷ cs) ≡ panic
unfolding parse_devices
parse_devices-untabbed c cs bad = rw (span_to_all 9 (c ∷ cs) bad) refl

-- A body that ends with bytes that hold no tab makes the parser panic, whatever devices stand before them.
pub parse_devices_panics :
    (ds : List Device) (c : ℕ) (cs : List ℕ)
    → IsPrintable ds
    → Without 9 (c ∷ cs)
    → parse_devices (length (render ds (c ∷ cs))) (render ds (c ∷ cs)) ≡ panic
parse_devices_panics ds c cs w bad =
    parse_devices-render_all (length (render ds (c ∷ cs))) ds (c ∷ cs) w (omega arith)
    ∙ rw (parse_devices-untabbed c cs bad) (add_all-panic ds)
