-- ===== src/Dashboard/Curl.antt =====
-- dashboard/src/lib/curl.js: the command that the dashboard shows for a delivery. A text is the
-- list of its code points.
pub mod Words
pub mod Command
use hook_tracker.Prelude.{ℕ, List, [], ◌∷◌, ◌++◌, Option, none, some, codes, ◌==◌, if◌then◌else◌}

abbrev pub Text : Type 0
Text = List ℕ

-- `replaceAll("'", "'\\''")`
unfoldable pub escape_quotes : Text → Text
escape_quotes [] = []
escape_quotes (c ∷ s) =
    let rest = escape_quotes s in
    if c == b'\'' then b'\'' ∷ b'\\' ∷ b'\'' ∷ b'\'' ∷ rest else c ∷ rest

unfoldable pub shell_quote : Text → Text
unfolding escape_quotes
shell_quote value = b'\'' ∷ escape_quotes value ++ b'\'' ∷ []

-- `lines.join(' \\\n')`, for the lines after the first.
abbrev pub line_break : Text
line_break = b' ' ∷ b'\\' ∷ 10 ∷ []

unfoldable pub header_lines : List (Text × Text) → Text
unfolding shell_quote
header_lines [] = []
header_lines ((name, value) ∷ headers) =
    line_break ++ codes "  -H " ++ shell_quote (name ++ codes ": " ++ value) ++ header_lines headers

unfoldable pub body_line : Option Text → Text
unfolding shell_quote
body_line none = []
body_line (some body) = line_break ++ codes "  -d " ++ shell_quote body

unfoldable pub build_curl : Text → List (Text × Text) → Option Text → Text
unfolding header_lines body_line shell_quote
build_curl url headers body =
    codes "curl -X POST " ++ shell_quote url ++ header_lines headers ++ body_line body
