-- ===== src/Guest/Workload/Capture.antt =====
-- boundedCapture of internal/guestagent/process_linux.go: the first 64 KiB of an output.
use epoch.Base.{
  ℕ, zero, suc, Bool-cases, inl, inr, ◌-◌, ◌≤◌, Bytes, Bool, true, false, List, [], ◌∷◌, ◌++◌,
  length, length-append, take, ltb, if◌then◌else◌, ◌≡◌, refl, sym, ◌∙◌, ap, arith,
}
use mathlib.Core.List.{append-nil, append_assoc}

-- MaxOutput
abbrev pub max_output : ℕ
max_output = 65536

-- Its bytes and `overflow`, with which the channel `quota` is closed.
pub record Capture : Type 0 where
  pub bytes : Bytes
  pub overflow : Bool

abbrev pub new_capture : Capture
new_capture = record { bytes = []; overflow = false }

-- Write; what it returns is always (len(p), nil).
unfoldable pub write : Bytes → Capture → Capture
write p b =
    let space = max_output - length b.bytes in
    if ltb space (length p)
    then record { bytes = b.bytes ++ take space p; overflow = true }
    else record b { bytes = b.bytes ++ p }

unfoldable pub write_each : List Bytes → Capture → Capture
unfolding write
write_each [] b = b
write_each (p ∷ ps) b = write_each ps (write p b)

abbrev pub concat : List Bytes → Bytes
concat [] = []
concat (p ∷ ps) = p ++ concat ps

-- What a capture holds that was given the bytes `s`.
abbrev pub captured : Bytes → Capture
captured s = record { bytes = take max_output s; overflow = ltb max_output (length s) }

take-append {ℓ} :
    {A : Type ℓ} (n : ℕ) (xs ys : List A) → take n (xs ++ ys) ≡ take n xs ++ take (n - length xs) ys
take-append zero [] ys = refl
take-append zero (x ∷ xs) ys =
    let none : ◌≡◌ {A = ℕ} zero (zero - suc (length xs)) = omega arith in
    ap (λ (k : ℕ). take k ys) none
take-append (suc n) [] ys =
    let whole : suc n ≡ suc n - 0 = omega arith in ap (λ (k : ℕ). take k ys) whole
take-append (suc n) (x ∷ xs) ys =
    let less : n - length xs ≡ suc n - suc (length xs) = omega arith in
    ap (◌∷◌ x) (take-append n xs ys ∙ ap (λ (k : ℕ). take n xs ++ take k ys) less)

take_all {ℓ} : {A : Type ℓ} (n : ℕ) (xs : List A) → length xs ≤ n → take n xs ≡ xs
take_all zero [] h = refl
take_all zero (x ∷ xs) h = absurd (omega arith)
take_all (suc n) [] h = refl
take_all (suc n) (x ∷ xs) h = ap (◌∷◌ x) (take_all n xs (omega arith))

length-take {ℓ} : {A : Type ℓ} (n : ℕ) (xs : List A) → n ≤ length xs → length (take n xs) ≡ n
length-take zero xs h = omega arith
length-take (suc n) [] h = omega arith
length-take (suc n) (x ∷ xs) h = omega (arith, length-take n xs (omega arith))

-- A write to a capture of `n` bytes.
abbrev write_to : ℕ → Bytes → Capture → Capture
write_to n p b =
    if ltb (n - length b.bytes) (length p)
    then record { bytes = b.bytes ++ take (n - length b.bytes) p; overflow = true }
    else record b { bytes = b.bytes ++ p }

abbrev captured_to : ℕ → Bytes → Capture
captured_to n s = record { bytes = take n s; overflow = ltb n (length s) }

eq_nil : (p : Bytes) → length p ≡ 0 → p ≡ []
eq_nil [] h = refl
eq_nil (x ∷ p) h = absurd (omega arith)

write_full :
    (n : ℕ) (s p : Bytes)
    → n ≤ length s
    → ltb n (length s) ≡ true
    → write_to n p (captured_to n s) ≡ captured_to n (s ++ p)
write_full n s p le over =
    let none_left : n - length (take n s) ≡ 0 = omega (arith, length-take n s) in
    let none_more : n - length s ≡ 0 = omega arith in
    ground (
      arith,
      ap (λ (k : ℕ). take k p) none_left,
      ap (λ (k : ℕ). take k p) none_more,
      take-append n s p,
      append-nil (take n s),
      length-append s p,
      eq_nil p,
    )

write_partly :
    (n : ℕ) (s p : Bytes)
    → length s ≤ n
    → ltb n (length s) ≡ false
    → write_to n p (captured_to n s) ≡ captured_to n (s ++ p)
write_partly n s p le fits =
    rw (take_all n s le)
      (ground (arith, take_all n s le, take-append n s p, take_all n (s ++ p), length-append s p))

write-captured : (n : ℕ) (s p : Bytes) → write_to n p (captured_to n s) ≡ captured_to n (s ++ p)
write-captured n s p = elim (Bool-cases (ltb n (length s))) [
  | inl over ↦ write_full n s p (ground arith) over
  | inr fits ↦ write_partly n s p (ground arith) fits
]

write_each_from :
    (s : Bytes) (ps : List Bytes) → write_each ps (captured s) ≡ captured (s ++ concat ps)
unfolding write_each write
write_each_from s [] = ap captured (sym (append-nil s))
write_each_from s (p ∷ ps) =
    ap (write_each ps) (write-captured max_output s p)
    ∙ write_each_from (s ++ p) ps
    ∙ ap captured (append_assoc s p (concat ps))

-- However a process cuts its output into writes, the capture holds the first 64 KiB of it, and tells of an
-- overflow exactly where there was more.
pub write_each-captured : (ps : List Bytes) → write_each ps new_capture ≡ captured (concat ps)
write_each-captured ps = write_each_from [] ps
