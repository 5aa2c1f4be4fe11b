-- ===== src/Host/Names.antt =====
-- The names of volumes (agent/nodepilot_agent/storage/), and what the code takes from Python's
-- texts and paths.
use node_pilot.Common.{ℕ, List, Bool, true, false, ◌&&◌, ◌||◌, not, [], ◌∷◌, ◌==◌, if◌then◌else◌}
use node_pilot.Common.Error.{storage_operation_error}
use node_pilot.Common.Exec.{Result, ok, err}
use node_pilot.Hypervisor.Text.{Text}
use node_pilot.Hypervisor.Network.{is_alphanumeric, matches_rest}

-- `_SAFE_NAME.match`: `$` lets a line feed through at the end.
unfoldable pub safe_name : Text → Bool
unfolding matches_rest
safe_name [] = false
safe_name (c ∷ s) = is_alphanumeric c && matches_rest 127 s

-- `_validate_name`
unfoldable pub validate_name : Text → Result Text
unfolding safe_name
validate_name name = if not (safe_name name) then err storage_operation_error else ok name

-- `a == b` of texts.
abbrev pub same_text : Text → Text → Bool
same_text [] [] = true
same_text [] (d ∷ t) = false
same_text (c ∷ s) [] = false
same_text (c ∷ s) (d ∷ t) = c == d && same_text s t

-- `str.startswith`
abbrev pub starts_with : Text → Text → Bool
starts_with s [] = true
starts_with [] (d ∷ t) = false
starts_with (c ∷ s) (d ∷ t) = c == d && starts_with s t

-- `t in s`
abbrev pub contains : Text → Text → Bool
contains t [] = starts_with [] t
contains t (c ∷ s) = starts_with (c ∷ s) t || contains t s

-- What stands before the first `c`: `s.split(c, 1)[0]` and `s.partition(c)[0]`.
abbrev pub text_before : ℕ → Text → Text
text_before c [] = []
text_before c (d ∷ s) = if d == c then [] else d ∷ text_before c s

-- `s.partition(c)[2]`
abbrev pub text_behind : ℕ → Text → Text
text_behind c [] = []
text_behind c (d ∷ s) = if d == c then s else text_behind c s

abbrev pub append_path : Text → Text → Text
append_path [] name = name
append_path (c ∷ []) name = if c == b'/' then c ∷ name else c ∷ b'/' ∷ name
append_path (c ∷ d ∷ s) name = c ∷ append_path (d ∷ s) name

-- `os.path.join(path, name)`: a name that begins with a slash stands alone.
abbrev pub path_join : Text → Text → Text
path_join path [] = append_path path []
path_join path (c ∷ s) = if c == b'/' then c ∷ s else append_path path (c ∷ s)

-- The fields that white space separates, of `str.split`: spaces, tabs and line feeds.
abbrev pub is_space : ℕ → Bool
is_space c = c == 32 || (c == 9 || (c == 10 || c == 13))

abbrev add_word : Text → List Text → List Text
add_word [] words = words
add_word (c ∷ w) words = (c ∷ w) ∷ words

-- The word that a text begins with, and the words behind it.
abbrev first_word : Text → Text × List Text
first_word [] = ([], [])
first_word (c ∷ s) =
    let (w, words) = first_word s in if is_space c then ([], add_word w words) else (c ∷ w, words)

-- `s.split()`
abbrev pub split_words : Text → List Text
split_words s = let (w, words) = first_word s in add_word w words
