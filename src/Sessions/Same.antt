-- ===== src/Sessions/Same.antt =====
-- Histories of equal items, and what a request shows the upstream (src/http_api/responses_session.rs).
use codex_api.Common.{
  ◌≡◌, refl, ap, true, Option, none, some, map_option, List, [], ◌∷◌, ◌++◌, length, String,
  and_then, unwrap_or, skip, both,
}
use codex_api.Json.{Json, View, string, array}
use codex_api.Json.Access.{as_str, as_array, json_string}
use codex_api.Sessions.Actor.{starts_with, continued}

module _ ⦃J : Json⦄ where
  open J use {
    Value, Fields, Number, view, make, view-make, get, insert, remove, get-insert, value_eq,
    value_eq-refl, value_eq-trans,
  }

  -- Two histories of equal items.
  abbrev pub Same : List Value → List Value → Type 0
  Same [] [] = Unit
  Same [] (_ ∷ _) = ⊥
  Same (_ ∷ _) [] = ⊥
  Same (x ∷ xs) (y ∷ ys) = (value_eq x y ≡ true) × Same xs ys

  pub Same-refl : (xs : List Value) → Same xs xs
  Same-refl [] = tt
  Same-refl (x ∷ xs) = (value_eq-refl x, Same-refl xs)

  -- A history that begins with a prefix goes on after anything that is the same as the prefix.
  Same-skip :
      (held prefix input : List Value)
      → Same held prefix
      → starts_with input prefix ≡ true
      → Same (held ++ skip (length prefix) input) input
  unfolding starts_with
  Same-skip [] [] input s h = Same-refl input
  Same-skip (x ∷ held) (y ∷ prefix) (z ∷ input) s h =
      let (e, k) = both (value_eq y z) (starts_with input prefix) h in
      (value_eq-trans x y z s.0 e, Same-skip held prefix input s.1 k)
  Same-skip [] (_ ∷ _) input s h = elim s [ ]
  Same-skip (_ ∷ _) [] input s h = elim s [ ]
  Same-skip (_ ∷ _) (_ ∷ _) [] s h = absurd cc

  Same-append : (xs ys zs : List Value) → Same xs ys → Same (xs ++ zs) (ys ++ zs)
  Same-append [] [] zs s = Same-refl zs
  Same-append (x ∷ xs) (y ∷ ys) zs s = (s.0, Same-append xs ys zs s.1)
  Same-append [] (_ ∷ _) zs s = elim s [ ]
  Same-append (_ ∷ _) [] zs s = elim s [ ]

  -- What the upstream holds on a connection for the identifier of a response, if it knows it.
  abbrev pub Contexts : Type 0
  Contexts = String → Option (List Value)

  -- A connection that has just been made.
  abbrev pub nothing_held : Contexts
  nothing_held = λ id. none

  -- What a request shows the upstream on the connection that it is sent on: what it goes on from,
  -- and its own input; nothing, if the upstream does not know the response that it goes on from.
  abbrev pub presented : Contexts → Fields → Option (List Value)
  presented contexts sent = elim (and_then (get sent "previous_response_id") as_str) [
    | none ↦ some (unwrap_or (and_then (get sent "input") as_array) [])
    | some id ↦
        map_option (λ held. held ++ unwrap_or (and_then (get sent "input") as_array) [])
          (contexts id)
  ]

  -- Something is shown, and it is the history.
  abbrev pub Shown : Option (List Value) → List Value → Type 0
  Shown none input = ⊥
  Shown (some shown) input = Same shown input

  pub Shown-skip :
      (o : Option (List Value)) (prefix input : List Value)
      → Shown o prefix
      → starts_with input prefix ≡ true
      → Shown (map_option (λ held. held ++ skip (length prefix) input) o) input
  Shown-skip none prefix input s h = elim s [ ]
  Shown-skip (some held) prefix input s h = Same-skip held prefix input s h

  pub Shown-append :
      (o : Option (List Value)) (ys zs : List Value)
      → Shown o ys
      → Shown (map_option (λ shown. shown ++ zs) o) (ys ++ zs)
  Shown-append none ys zs s = elim s [ ]
  Shown-append (some xs) ys zs s = Same-append xs ys zs s

  -- The accessors of a value that is made.
  as_str_made : (s : String) → as_str (json_string s) ≡ some s
  unfolding as_str json_string
  as_str_made s =
      ap (λ (w : View Value Fields Number). elim w [ string t ↦ some t | _ ↦ none ])
        (view-make (string s))

  as_array_made : (xs : List Value) → as_array (make (array xs)) ≡ some xs
  unfolding as_array
  as_array_made xs =
      ap (λ (w : View Value Fields Number). elim w [ array t ↦ some t | _ ↦ none ])
        (view-make (array xs))

  presented-read :
      (contexts : Contexts) (sent : Fields) (v w : Value) (id : String) (input : List Value)
      → get sent "previous_response_id" ≡ some v
      → as_str v ≡ some id
      → get sent "input" ≡ some w
      → as_array w ≡ some input
      → presented contexts sent ≡ map_option (λ held. held ++ input) (contexts id)
  presented-read contexts sent v w id input a b c d = rw (a, presented) (rw (b, c) (rw d refl))

  pub presented-continued :
      (contexts : Contexts) (body : Fields) (id : String) (input : List Value)
      → presented contexts (continued body id input)
        ≡ map_option (λ held. held ++ input) (contexts id)
  presented-continued contexts body id input =
      presented-read contexts (continued body id input) (json_string id) (make (array input)) id
        input (simp get-insert) (as_str_made id) (simp get-insert) (as_array_made input)
