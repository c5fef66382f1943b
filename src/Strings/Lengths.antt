-- ===== src/Strings/Lengths.antt =====
-- `memcheck_strlen` and `memcheck_strnlen` find the terminator.
use mambo.Base.{
  ℕ, zero, suc, ◌+◌, ◌<◌, ◌≡◌, ◌∙◌, ap, false, List, [], ◌∷◌, ◌==◌, length, min, arith, ok,
}
use mambo.Strings.{Memory, strlen_loop, memcheck_strlen, strnlen_rounds, memcheck_strnlen}
use mambo.Strings.Views.{CString, CString-eq}

strlen_loop_lem :
    (xs : List ℕ) (fuel : ℕ) (m : Memory) (s len : ℕ)
    → CString m (s + len) xs
    → length xs < fuel
    → strlen_loop fuel m s len ≡ ok (len + length xs)
unfolding strlen_loop
strlen_loop_lem xs zero m s len h enough = absurd (omega arith)
strlen_loop_lem [] (suc fuel) m s len h enough = rw h (ap ok (omega arith))
strlen_loop_lem (x ∷ xs) (suc fuel) m s len (here, nonzero, rest) enough =
    let other : (x == 0) ≡ false = ground arith in
    rw (here, other)
      (strlen_loop_lem xs fuel m s (suc len) (CString-eq m _ _ xs (omega arith) rest) (omega arith)
        ∙ ap ok (omega arith))

strnlen_rounds_lem :
    (xs : List ℕ) (left : ℕ) (m : Memory) (s len : ℕ)
    → CString m (s + len) xs
    → strnlen_rounds left m s len ≡ len + min (length xs) left
unfolding strnlen_rounds
strnlen_rounds_lem xs zero m s len h = omega arith
strnlen_rounds_lem [] (suc left) m s len h = rw h (omega arith)
strnlen_rounds_lem (x ∷ xs) (suc left) m s len (here, nonzero, rest) =
    let other : (x == 0) ≡ false = ground arith in
    rw (here, other)
      (strnlen_rounds_lem xs left m s (suc len) (CString-eq m _ _ xs (omega arith) rest)
        ∙ omega arith)

-- At a string `xs`, `memcheck_strlen` returns the length of `xs` with any fuel above it, and
-- `memcheck_strnlen` returns the smaller of the length and its bound.
memcheck_strlen_lem :
    (m : Memory) (s : ℕ) (xs : List ℕ)
    → CString m s xs
    → ((fuel : ℕ) → length xs < fuel → memcheck_strlen fuel m s ≡ ok (length xs))
      × ((maxlen : ℕ) → memcheck_strnlen m s maxlen ≡ min (length xs) maxlen)
unfolding memcheck_strlen memcheck_strnlen
memcheck_strlen_lem m s xs h = (
  λ fuel enough.
      strlen_loop_lem xs fuel m s 0 (CString-eq m _ _ xs (omega arith) h) enough
      ∙ ap ok (omega arith),
  λ maxlen. strnlen_rounds_lem xs maxlen m s 0 (CString-eq m _ _ xs (omega arith) h) ∙ omega arith,
)
