-- ===== src/Storage/Errors.antt =====
-- pkg/storage/types.go: the errors of the stores, and the test for one of them.
pub mod NotFound
use go_statemachine.Prelude.{Text, text, Bool, List, [], ◌∷◌, ◌++◌}
use go_statemachine.Go.Fmt.{errorf}
use go_statemachine.Go.Regexp.{Item, one, many, is_space, is_visible, literal, match}
use go_statemachine.Go.Result.{Error}

abbrev pub store_error : Text → Text → Error
store_error msg key = errorf msg key

abbrev pub already_exists_error : Text → Error
already_exists_error = store_error (text "key %s already exists")

abbrev pub generic_store_error : Text → Error
generic_store_error = store_error (text "store error: %v")

abbrev pub invalid_data_error : Text → Error
invalid_data_error = store_error (text "error storing invalid data: %v")

abbrev pub not_found_error : Text → Error
not_found_error = store_error (text "key %s not found")

abbrev pub too_many_attempts : Text → Error
too_many_attempts = store_error (text "retries exceeded")

abbrev pub not_found_tail : List Item
not_found_tail = literal (text "not") ++ one is_space ∷ literal (text "found")

-- ^key\s+(\S+)\s+not\sfound$
abbrev pub not_found_pattern : List Item
not_found_pattern =
    literal (text "key") ++ many is_space ∷ many is_visible ∷ many is_space ∷ not_found_tail

unfoldable pub is_not_found_err : Error → Bool
unfolding match
is_not_found_err err = match not_found_pattern err
