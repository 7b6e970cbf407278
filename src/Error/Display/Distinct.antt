-- ===== src/Error/Display/Distinct.antt =====
-- The texts of different failures of a connection differ.
use Prim.Native.Char.{code}
use Prim.Native.String.{String, [], ◌∷◌, ◌++◌}
use text.Mathlib.TextLemmas.{nil-append, cons-append}
use cobs_io_async_rs.Error.Display.{connection_error}
use cobs_io_async_rs.Error.{
  ConnectionError, transport, unexpected_eof, write_zero, timeout, sequence_exhausted, failed,
}
use cobs_io_async_rs.Prelude.{ℕ, zero, suc, ◌≡◌, refl, sym, ap, ◌∙◌, ◌==◌, if◌then◌else◌}

-- A failure, with the text of the transport's error in the place of the error.
abbrev pub in_text : {E : Type 0} → (E → String) → ConnectionError E → ConnectionError String
in_text show (transport e) = transport (show e)
in_text show unexpected_eof = unexpected_eof
in_text show write_zero = write_zero
in_text show timeout = timeout
in_text show sequence_exhausted = sequence_exhausted
in_text show failed = failed

-- What is behind the first `n` characters.
abbrev behind : ℕ → String → String
behind zero s = s
behind (suc n) [] = []
behind (suc n) (c ∷ s) = behind n s

abbrev first : String → ℕ
first [] = 0
first (c ∷ s) = code c

-- `◌++◌`, by clauses.
abbrev join : String → String → String
join [] t = t
join (c ∷ s) t = c ∷ join s t

append-join : (s t : String) → s ++ t ≡ join s t
append-join [] t = nil-append t
append-join (c ∷ s) t = cons-append c s t ∙ ap (λ r. c ∷ r) (append-join s t)

-- The eleventh character tells the failure.
abbrev told : ℕ → String → ConnectionError String
told c s =
    if c == b'e'
    then transport s
    else if c == b'c'
    then unexpected_eof
    else if c == b'a'
    then write_zero
    else if c == b's'
    then timeout
    else if c == b'u'
    then sequence_exhausted
    else failed

told_lem :
    {E : Type 0} (show : E → String) (e : ConnectionError E)
    → told (first (behind 10 (connection_error show e))) (behind 17 (connection_error show e))
      ≡ in_text show e
unfolding connection_error
told_lem show (transport e) =
    ap (λ text. told (first (behind 10 text)) (behind 17 text))
      (append-join "Transport error: " (show e))
told_lem show unexpected_eof = refl
told_lem show write_zero = refl
told_lem show timeout = refl
told_lem show sequence_exhausted = refl
told_lem show failed = refl

-- If the texts of two failures are equal, then they are the same failure, but for errors of the
-- transport whose own texts are equal.
pub connection_error_inj :
    {E : Type 0} (show : E → String) (x y : ConnectionError E)
    → connection_error show x ≡ connection_error show y
    → in_text show x ≡ in_text show y
connection_error_inj show x y e =
    sym (told_lem show x)
    ∙ ap (λ text. told (first (behind 10 text)) (behind 17 text)) e
    ∙ told_lem show y
