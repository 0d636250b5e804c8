-- ===== src/Workspace/Slug.antt =====
-- `_slugify`, and the free slug that `create_workspace` looks for.
use Prim.Native.Char.{Char, code}
use Prim.Native.String.{[], ◌∷◌}
use auth_n_z.Common.{
  ltb, leb, nat_eq, if◌then◌else◌, space, lower, strip, ℕ, zero, suc, ◌+◌, String, Bool, false,
  ◌&&◌, ◌||◌, Option, none, some, List, ◌==◌, text_append, show_nat,
}
use auth_n_z.Common.Rows.{count_where}
use auth_n_z.Workspace.Tables.{Workspace}

-- `\w` over ASCII, and what `[^\w\s-]` leaves
abbrev pub is_word : Char → Bool
is_word c =
    leb b'a' (code c) && leb (code c) b'z'
    || leb b'A' (code c) && leb (code c) b'Z'
    || leb b'0' (code c) && leb (code c) b'9'
    || nat_eq (code c) b'_'

-- the separators of `[\s_-]`
abbrev pub is_separator : Char → Bool
is_separator c = space c || nat_eq (code c) b'_' || nat_eq (code c) b'-'

-- `re.sub(r"[^\w\s-]", "", text)`
unfoldable pub keep_words : String → String
keep_words [] = []
keep_words (c ∷ s) =
    let rest = keep_words s in
    if is_word c || space c || nat_eq (code c) b'-' then c ∷ rest else rest

-- `re.sub(r"[\s_-]+", "-", text)`, with a test whether a separator stands just before
unfoldable pub join_words : Bool → String → String
join_words after [] = []
join_words after (c ∷ s) =
    let rest = join_words (is_separator c) s in
    if is_separator c then (if after then rest else "-" ∷ rest) else c ∷ rest

-- `_slugify`, with the random text that replaces an empty one
unfoldable pub slugify : (random text : String) → String
slugify random text =
    let slug = join_words false (keep_words (strip (lower text))) in
    if slug == "" then random else slug

-- the slugs that are tried in turn: the text, and the text with a number from 2 on
unfoldable pub candidate : String → ℕ → String
candidate base counter =
    if nat_eq counter 1 then base else text_append base (text_append "-" (show_nat counter))

-- a workspace has the slug
abbrev pub is_taken : String → List Workspace → Bool
is_taken slug ws = ltb 0 (count_where (λ (w : Workspace). w.slug == slug) ws)

-- the loop of `create_workspace`, on fuel
unfoldable pub free_slug : (fuel : ℕ) (base : String) (counter : ℕ) → List Workspace → Option String
free_slug zero base counter ws = none
free_slug (suc fuel) base counter ws =
    let rest = free_slug fuel base (counter + 1) ws in
    if is_taken (candidate base counter) ws then rest else some (candidate base counter)
