-- ===== src/Dashboard/Curl/Words.antt =====
-- What a POSIX shell makes of the command of dashboard/src/lib/curl.js. The reader knows blanks,
-- single quotes, the backslash and the joining of lines, and refuses every other character that
-- means something to a shell outside quotes.
use hook_tracker.Prelude.{
  ℕ, append_assoc, append-nil, ◌≡◌, refl, sym, subst, ==_iff, ◌∙◌, ap, List, [], ◌∷◌, ◌++◌, Option,
  none, some, Bool, false, ◌||◌, ◌&&◌, leb, ◌==◌, if◌then◌else◌, Bool-cases, inl, inr,
}
use hook_tracker.Dashboard.Curl.{Text, escape_quotes, shell_quote}

-- Between words, in a word outside quotes, inside quotes, and after a backslash in each of the first
-- two.
pub data Mode : Type 0 where
  gap bare quoted gap_escape bare_escape : Mode

-- A character that is added to the word, the end of a word, or neither.
pub data Effect : Type 0 where
  silent : Effect
  letter : ℕ → Effect
  word_end : Effect

abbrev is_plain : ℕ → Bool
is_plain c =
    (leb b'a' c && leb c b'z')
    || (leb b'A' c && leb c b'Z')
    || (leb b'0' c && leb c b'9')
    || c == b'-'

abbrev plain_step : ℕ → Option (Mode × Effect)
plain_step c = if is_plain c then some (bare, letter c) else none

abbrev step : Mode → ℕ → Option (Mode × Effect)
step gap c =
    if c == b' '
    then some (gap, silent)
    else if c == b'\''
    then some (quoted, silent)
    else if c == b'\\'
    then some (gap_escape, silent)
    else plain_step c
step bare c =
    if c == b' '
    then some (gap, word_end)
    else if c == b'\''
    then some (quoted, silent)
    else if c == b'\\'
    then some (bare_escape, silent)
    else plain_step c
step quoted c = if c == b'\'' then some (bare, silent) else some (quoted, letter c)
step gap_escape c = if c == 10 then some (gap, silent) else some (bare, letter c)
step bare_escape c = if c == 10 then some (bare, silent) else some (bare, letter c)

-- The words that follow; in a word, the first of them is its rest.
abbrev pub put : ℕ → Option (List Text) → Option (List Text)
put c none = none
put c (some []) = some ((c ∷ []) ∷ [])
put c (some (w ∷ ws)) = some ((c ∷ w) ∷ ws)

abbrev pub close : Option (List Text) → Option (List Text)
close none = none
close (some ws) = some ([] ∷ ws)

abbrev affect : Effect → Option (List Text) → Option (List Text)
affect silent ws = ws
affect (letter c) ws = put c ws
affect word_end ws = close ws

abbrev at_end : Mode → Option (List Text)
at_end gap = some []
at_end bare = some ([] ∷ [])
at_end _ = none

unfoldable pub words_from : Mode → Text → Option (List Text)
words_from m [] = at_end m
words_from m (c ∷ s) = elim (step m c) [ none ↦ none | some (m', e) ↦ affect e (words_from m' s) ]

abbrev pub words : Text → Option (List Text)
words s = words_from gap s

abbrev pub put_all : Text → Option (List Text) → Option (List Text)
put_all [] ws = ws
put_all (c ∷ s) ws = put c (put_all s ws)

abbrev after : Option (Mode × Effect) → Text → Option (List Text)
after none s = none
after (some (m, e)) s = affect e (words_from m s)

words_from-step : (m : Mode) (c : ℕ) (s : Text) → words_from m (c ∷ s) ≡ after (step m c) s
unfolding words_from
words_from-step m c s =
    elim (step m c)
      as (λ o. (elim o [ none ↦ none | some (m', e) ↦ affect e (words_from m' s) ]) ≡ after o s) [
        | none ↦ refl
        | some (m', e) ↦ refl
      ]

quoted_letter :
    (c : ℕ) (s : Text)
    → (c == b'\'') ≡ false
    → words_from quoted (c ∷ s) ≡ put c (words_from quoted s)
quoted_letter c s h =
    words_from-step quoted c s
    ∙ ap (λ b. after (if b then some (bare, silent) else some (quoted, letter c)) s) h

-- An escaped quote stands for itself.
quoted_quote :
    (s : Text)
    → words_from quoted (b'\'' ∷ b'\\' ∷ b'\'' ∷ b'\'' ∷ s) ≡ put b'\'' (words_from quoted s)
unfolding words_from
quoted_quote s = refl

escape_quotes-cons :
    (c : ℕ) (s rest : Text)
    → words_from quoted (escape_quotes (c ∷ s) ++ rest)
      ≡ put c (words_from quoted (escape_quotes s ++ rest))
unfolding escape_quotes
escape_quotes-cons c s rest = elim (Bool-cases (c == b'\'')) [
  | inl e ↦
      subst
        (λ k.
          words_from quoted (escape_quotes (k ∷ s) ++ rest)
          ≡ put k (words_from quoted (escape_quotes s ++ rest)))
        (sym ((==_iff c b'\'').0 e)) (quoted_quote (escape_quotes s ++ rest))
  | inr e ↦ rw e (quoted_letter c (escape_quotes s ++ rest) e)
]

end_quote : (rest : Text) → words_from quoted (b'\'' ∷ rest) ≡ words_from bare rest
unfolding words_from
end_quote rest = refl

words_from-quoted :
    (s rest : Text)
    → words_from quoted (escape_quotes s ++ b'\'' ∷ rest) ≡ put_all s (words_from bare rest)
unfolding escape_quotes
words_from-quoted [] rest = end_quote rest
words_from-quoted (c ∷ s) rest =
    escape_quotes-cons c s (b'\'' ∷ rest) ∙ ap (put c) (words_from-quoted s rest)

-- A quoted text is one word, or the rest of one, and nothing in it means anything to the shell.
words_from-shell_quote :
    (m : Mode) (s rest : Text)
    → step m b'\'' ≡ some (quoted, silent)
    → words_from m (shell_quote s ++ rest) ≡ put_all s (words_from bare rest)
unfolding shell_quote
words_from-shell_quote m s rest h =
    words_from-step m b'\'' ((escape_quotes s ++ b'\'' ∷ []) ++ rest)
    ∙ ap (λ o. after o ((escape_quotes s ++ b'\'' ∷ []) ++ rest)) h
    ∙ ap (words_from quoted) (append_assoc (escape_quotes s) (b'\'' ∷ []) rest)
    ∙ words_from-quoted s rest

put_all-some : (s w : Text) (ws : List Text) → put_all s (some (w ∷ ws)) ≡ some ((s ++ w) ∷ ws)
put_all-some [] w ws = refl
put_all-some (c ∷ s) w ws = ap (put c) (put_all-some s w ws)

pub quoted_word :
    (s rest : Text) (ws : List Text)
    → words_from bare rest ≡ some ([] ∷ ws)
    → words_from gap (shell_quote s ++ rest) ≡ some (s ∷ ws)
quoted_word s rest ws h =
    words_from-shell_quote gap s rest refl
    ∙ ap (put_all s) h
    ∙ put_all-some s [] ws
    ∙ ap (λ w. some (w ∷ ws)) (append-nil s)
