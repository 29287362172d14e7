-- ===== src/Dashboard/Curl/Command.antt =====
-- The whole command of dashboard/src/lib/curl.js, as a shell reads it.
use hook_tracker.Prelude.{
  append_assoc, append-nil, ◌≡◌, refl, sym, ◌∙◌, ap, List, [], ◌∷◌, ◌++◌, Option, none, some, codes,
}
use hook_tracker.Dashboard.Curl.{Text, shell_quote, line_break, header_lines, body_line, build_curl}
use hook_tracker.Dashboard.Curl.Words.{
  gap, bare, words_from, words, put, close, put_all, quoted_word,
}

-- The words of the lines after the first.
abbrev pub header_words : List (Text × Text) → List Text
header_words [] = []
header_words ((name, value) ∷ headers) =
    codes "-H" ∷ (name ++ codes ": " ++ value) ∷ header_words headers

abbrev pub body_words : Option Text → List Text
body_words none = []
body_words (some body) = codes "-d" ∷ body ∷ []

header_option :
    (s : Text)
    → words_from bare (line_break ++ codes "  -H " ++ s)
      ≡ close (put b'-' (put b'H' (close (words_from gap s))))
unfolding words_from
header_option s = refl

body_option :
    (s : Text)
    → words_from bare (line_break ++ codes "  -d " ++ s)
      ≡ close (put b'-' (put b'd' (close (words_from gap s))))
unfolding words_from
body_option s = refl

bare_end : words_from bare [] ≡ some ([] ∷ [])
unfolding words_from
bare_end = refl

words_from-body_line :
    (body : Option Text) → words_from bare (body_line body) ≡ some ([] ∷ body_words body)
unfolding body_line
words_from-body_line none = bare_end
words_from-body_line (some body) =
    body_option (shell_quote body)
    ∙ ap (λ o. close (put b'-' (put b'd' (close o))))
        (ap (words_from gap) (sym (append-nil (shell_quote body)))
          ∙ quoted_word body [] [] bare_end)

words_from-header_lines :
    (headers : List (Text × Text)) (tail : Text) (ws : List Text)
    → words_from bare tail ≡ some ([] ∷ ws)
    → words_from bare (header_lines headers ++ tail) ≡ some ([] ∷ header_words headers ++ ws)
unfolding header_lines
words_from-header_lines [] tail ws h = h
words_from-header_lines ((name, value) ∷ headers) tail ws h =
    header_option (shell_quote (name ++ codes ": " ++ value) ++ header_lines headers ++ tail)
    ∙ ap (λ o. close (put b'-' (put b'H' (close o))))
        (ap (words_from gap)
            (append_assoc (shell_quote (name ++ codes ": " ++ value)) (header_lines headers) tail)
          ∙ quoted_word (name ++ codes ": " ++ value) (header_lines headers ++ tail)
              (header_words headers ++ ws) (words_from-header_lines headers tail ws h))

curl_words :
    (s : Text)
    → words (codes "curl -X POST " ++ s)
      ≡ put_all
          (codes "curl")
          (close (put_all (codes "-X") (close (put_all (codes "POST") (close (words_from gap s))))))
unfolding words_from
curl_words s = refl

-- Whatever the URL, the headers and the body contain: a shell reads the command as curl with
-- exactly these arguments, each value one word, and as nothing else.
pub words-build_curl :
    (url : Text) (headers : List (Text × Text)) (body : Option Text)
    → words (build_curl url headers body)
      ≡ some (
          codes "curl"
          ∷ codes "-X"
          ∷ codes "POST"
          ∷ url
          ∷ (header_words headers ++ body_words body))
unfolding build_curl
words-build_curl url headers body =
    curl_words (shell_quote url ++ header_lines headers ++ body_line body)
    ∙ ap
        (λ o.
          put_all (codes "curl")
            (close (put_all (codes "-X") (close (put_all (codes "POST") (close o))))))
        (ap (words_from gap)
            (append_assoc (shell_quote url) (header_lines headers) (body_line body))
          ∙ quoted_word url (header_lines headers ++ body_line body)
              (header_words headers ++ body_words body)
              (words_from-header_lines headers (body_line body) (body_words body)
                (words_from-body_line body)))
