-- ===== src/Go/Fmt.antt =====
-- fmt.Errorf and fmt.Sprintf with one text among the arguments.
use go_statemachine.Prelude.{Text, text, [], ◌∷◌, ◌++◌, nat_eq, true, false}

-- The rest of a format behind `%`: the verb, which is `s` or `v`, gives way to the argument.
abbrev put_arg : Text → Text → Text
put_arg [] arg = text "%!(NOVERB)"
put_arg (verb ∷ format) arg = arg ++ format

-- fmt.Errorf(format, arg): the formats of the code have one verb at most. An argument for which the
-- format has no verb is shown behind the text.
abbrev pub errorf : Text → Text → Text
errorf [] arg = text "%!(EXTRA string=" ++ arg ++ text ")"
errorf (c ∷ format) arg = elim (nat_eq c b'%') [
  | true ↦ put_arg format arg
  | false ↦ c ∷ errorf format arg
]
