-- ===== src/Storage/Keys/Laws.antt =====
-- pkg/storage/keys.go: which keys are different, and for which names they are not.
use mathlib.Core.List.{append_cancel_right}
use go_statemachine.Prelude.{Text, ◌≡◌, ◌≢◌, ◌∷◌, ◌++◌, subst, refl, arith, text}
use go_statemachine.Go.Strings.Laws.{Lacks, Lacks-append, not-Lacks-append, cut_unique}
use go_statemachine.Protos.{Configuration}
use go_statemachine.Api.Configuration.{get_version_id}
use go_statemachine.Storage.Keys.{
  configs_prefix, new_key_for_config, new_key_for_machine, new_key_for_machines_by_state,
  new_key_for_event, new_key_for_outcome,
}

-- The collections of the store, with what names an entry.
pub data Key : Type 0 where
  all_configs : Key
  config : Text → Key
  machine by_state event outcome : Text → Text → Key

abbrev pub key_text : Key → Text
key_text all_configs = configs_prefix
key_text (config id) = new_key_for_config id
key_text (machine id name) = new_key_for_machine id name
key_text (by_state name state) = new_key_for_machines_by_state name state
key_text (event id name) = new_key_for_event id name
key_text (outcome id name) = new_key_for_outcome id name

-- A name without the two separators.
abbrev pub IsPlain : Text → Type 0
IsPlain name = Lacks b'#' name × Lacks b':' name

abbrev pub HasPlainName : Key → Type 0
HasPlainName all_configs = Unit
HasPlainName (config id) = Unit
HasPlainName (machine id name) = IsPlain name
HasPlainName (by_state name state) = IsPlain name
HasPlainName (event id name) = IsPlain name
HasPlainName (outcome id name) = IsPlain name

-- `name#id`, and `name:part#id` with a text `part` that the code writes.
module _ (a b s t : Text) (pa : IsPlain a) (pb : IsPlain b) where
  same_plain : a ++ b'#' ∷ s ≡ b ++ b'#' ∷ t → (a ≡ b) × (s ≡ t)
  same_plain = cut_unique b'#' a b s t pa.0 pb.0

  module _ (part : Text) (lacks : Lacks b'#' (b':' ∷ part)) where
    same_part : (a ++ b':' ∷ part) ++ b'#' ∷ s ≡ (b ++ b':' ∷ part) ++ b'#' ∷ t → (a ≡ b) × (s ≡ t)
    same_part e =
        let (l, r) =
          cut_unique b'#' (a ++ b':' ∷ part) (b ++ b':' ∷ part) s t
            (Lacks-append b'#' a (b':' ∷ part) pa.0 lacks)
            (Lacks-append b'#' b (b':' ∷ part) pb.0 lacks) e in
        (append_cancel_right a b (b':' ∷ part) l, r)

    other_part : a ++ b'#' ∷ s ≢ (b ++ b':' ∷ part) ++ b'#' ∷ t
    other_part e = not-Lacks-append b':' b part (
        subst (Lacks b':')
          ((cut_unique b'#' a (b ++ b':' ∷ part) s t pa.0
            (Lacks-append b'#' b (b':' ∷ part) pb.0 lacks) e).0)
          pa.1)

-- For names without the separators, two different entries never have the same key.
pub key_text_injective :
    (k l : Key) → HasPlainName k → HasPlainName l → key_text k ≡ key_text l → k ≡ l
unfolding new_key_for_config new_key_for_machine new_key_for_machines_by_state new_key_for_event
    new_key_for_outcome
key_text_injective all_configs all_configs p q e = refl
key_text_injective (config id) (config id') p q e = cc
key_text_injective (machine s a) (machine t b) p q e =
    let (l, r) = same_plain a b s t p q (cc) in cc
key_text_injective (by_state a s) (by_state b t) p q e =
    let (l, r) = same_part a b s t p q (text "state") (omega arith) (cc) in cc
key_text_injective (event s a) (event t b) p q e = let (l, r) = same_plain a b s t p q (cc) in cc
key_text_injective (outcome s a) (outcome t b) p q e =
    let (l, r) = same_part a b s t p q (text "outcome") (omega arith) (cc) in cc
key_text_injective (machine s a) (by_state b t) p q e =
    absurd (other_part a b s t p q (text "state") (omega arith) (cc))
key_text_injective (by_state b t) (machine s a) p q e =
    absurd (other_part a b s t q p (text "state") (omega arith) (cc))
key_text_injective (event s a) (outcome t b) p q e =
    absurd (other_part a b s t p q (text "outcome") (omega arith) (cc))
key_text_injective (outcome t b) (event s a) p q e =
    absurd (other_part a b s t q p (text "outcome") (omega arith) (cc))
key_text_injective _ _ p q e = ground arith

pub machine_key_ne :
    (id name name' st : Text)
    → IsPlain name
    → IsPlain name'
    → new_key_for_machine id name ≢ new_key_for_machines_by_state name' st
machine_key_ne id name name' st p q e =
    differ (key_text_injective (machine id name) (by_state name' st) p q e)
  where
    differ : machine id name ≡ by_state name' st → ⊥
    differ h = cc

-- A configuration whose name ends in `:state` shares keys with another one: its machine `id` is
-- stored at the key of the set of the other's machines in the state `id`.
pub machine_key_collides :
    (id name : Text)
    → new_key_for_machine id (name ++ text ":state") ≡ new_key_for_machines_by_state name id
unfolding new_key_for_machine new_key_for_machines_by_state
machine_key_collides id name = refl

-- Configurations with such names have different identifiers, if they differ in name or version.
pub get_version_id_injective :
    (c d : Configuration)
    → Lacks b':' c.name
    → Lacks b':' d.name
    → get_version_id c ≡ get_version_id d
    → (c.name ≡ d.name) × (c.version ≡ d.version)
get_version_id_injective c d p q e = cut_unique b':' c.name d.name c.version d.version p q e
