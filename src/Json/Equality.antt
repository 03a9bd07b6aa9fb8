-- ===== src/Json/Equality.antt =====
-- Equality of finite trees, as `==` on the values of the crate serde_json.
use codex_api.Common.{
  not, true, false, ◌&&◌, nat_eq, pos_part, neg_part, ◌≡◌, refl, Bool, str_eq, eq_iff, eq_refl,
  if◌then◌else◌, arith, ap, subst, both,
}
use codex_api.Json.Trees.{
  Plain, Items, Members, p_null, p_bool, p_number, p_string, p_array, p_object, nil, cons, end,
  member,
}

-- `==`
unfoldable mutual
  pub plain_eq : Plain → Plain → Bool
  plain_eq p_null p_null = true
  plain_eq (p_bool b) (p_bool c) = if b then c else not c
  plain_eq (p_number n) (p_number m) =
      nat_eq (pos_part n) (pos_part m) && nat_eq (neg_part n) (neg_part m)
  plain_eq (p_string s) (p_string t) = str_eq s t
  plain_eq (p_array xs) (p_array ys) = items_eq xs ys
  plain_eq (p_object m) (p_object n) = members_eq m n
  plain_eq _ _ = false

  pub items_eq : Items → Items → Bool
  items_eq nil nil = true
  items_eq (cons x xs) (cons y ys) = plain_eq x y && items_eq xs ys
  items_eq _ _ = false

  pub members_eq : Members → Members → Bool
  members_eq end end = true
  members_eq (member k v m) (member j w n) = str_eq k j && plain_eq v w && members_eq m n
  members_eq _ _ = false

mutual
  unfolding plain_eq items_eq members_eq

  plain_eq_refl : (v : Plain) → plain_eq v v ≡ true
  plain_eq_refl p_null = refl
  plain_eq_refl (p_bool b) = ground arith
  plain_eq_refl (p_number n) = ground arith
  plain_eq_refl (p_string s) = eq_refl s
  plain_eq_refl (p_array xs) = items_eq_refl xs
  plain_eq_refl (p_object m) = members_eq_refl m

  items_eq_refl : (xs : Items) → items_eq xs xs ≡ true
  items_eq_refl nil = refl
  items_eq_refl (cons x xs) = ground (arith, plain_eq_refl x, items_eq_refl xs)

  members_eq_refl : (m : Members) → members_eq m m ≡ true
  members_eq_refl end = refl
  members_eq_refl (member k v m) = ground (arith, eq_iff k k, plain_eq_refl v, members_eq_refl m)

pub value_eq-refl_plain : (v : Plain) → plain_eq v v ≡ true
value_eq-refl_plain v = plain_eq_refl v

mutual
  unfolding plain_eq items_eq members_eq

  plain_eq_sound : (v w : Plain) → plain_eq v w ≡ true → v ≡ w
  plain_eq_sound p_null p_null h = refl
  plain_eq_sound (p_bool b) (p_bool c) h = ground arith
  plain_eq_sound (p_number n) (p_number m) h = ground arith
  plain_eq_sound (p_string s) (p_string t) h = ground (arith, eq_iff s t)
  plain_eq_sound (p_array xs) (p_array ys) h = ap p_array (items_eq_sound xs ys h)
  plain_eq_sound (p_object m) (p_object n) h = ap p_object (members_eq_sound m n h)
  plain_eq_sound p_null (p_bool _) h = absurd cc
  plain_eq_sound p_null (p_number _) h = absurd cc
  plain_eq_sound p_null (p_string _) h = absurd cc
  plain_eq_sound p_null (p_array _) h = absurd cc
  plain_eq_sound p_null (p_object _) h = absurd cc
  plain_eq_sound (p_bool _) p_null h = absurd cc
  plain_eq_sound (p_bool _) (p_number _) h = absurd cc
  plain_eq_sound (p_bool _) (p_string _) h = absurd cc
  plain_eq_sound (p_bool _) (p_array _) h = absurd cc
  plain_eq_sound (p_bool _) (p_object _) h = absurd cc
  plain_eq_sound (p_number _) p_null h = absurd cc
  plain_eq_sound (p_number _) (p_bool _) h = absurd cc
  plain_eq_sound (p_number _) (p_string _) h = absurd cc
  plain_eq_sound (p_number _) (p_array _) h = absurd cc
  plain_eq_sound (p_number _) (p_object _) h = absurd cc
  plain_eq_sound (p_string _) p_null h = absurd cc
  plain_eq_sound (p_string _) (p_bool _) h = absurd cc
  plain_eq_sound (p_string _) (p_number _) h = absurd cc
  plain_eq_sound (p_string _) (p_array _) h = absurd cc
  plain_eq_sound (p_string _) (p_object _) h = absurd cc
  plain_eq_sound (p_array _) p_null h = absurd cc
  plain_eq_sound (p_array _) (p_bool _) h = absurd cc
  plain_eq_sound (p_array _) (p_number _) h = absurd cc
  plain_eq_sound (p_array _) (p_string _) h = absurd cc
  plain_eq_sound (p_array _) (p_object _) h = absurd cc
  plain_eq_sound (p_object _) p_null h = absurd cc
  plain_eq_sound (p_object _) (p_bool _) h = absurd cc
  plain_eq_sound (p_object _) (p_number _) h = absurd cc
  plain_eq_sound (p_object _) (p_string _) h = absurd cc
  plain_eq_sound (p_object _) (p_array _) h = absurd cc

  items_eq_sound : (xs ys : Items) → items_eq xs ys ≡ true → xs ≡ ys
  items_eq_sound nil nil h = refl
  items_eq_sound (cons x xs) (cons y ys) h =
      let (a, b) = both (plain_eq x y) (items_eq xs ys) h in
      rw (plain_eq_sound x y a, items_eq_sound xs ys b) refl
  items_eq_sound nil (cons _ _) h = absurd cc
  items_eq_sound (cons _ _) nil h = absurd cc

  members_eq_sound : (m n : Members) → members_eq m n ≡ true → m ≡ n
  members_eq_sound end end h = refl
  members_eq_sound (member k v m) (member j w n) h =
      let (t, c) = both (str_eq k j && plain_eq v w) (members_eq m n) h in
      let (a, b) = both (str_eq k j) (plain_eq v w) t in
      rw ((eq_iff k j).0 a, plain_eq_sound v w b, members_eq_sound m n c) refl
  members_eq_sound end (member _ _ _) h = absurd cc
  members_eq_sound (member _ _ _) end h = absurd cc

pub value_eq-trans_plain :
    (u v w : Plain) → plain_eq u v ≡ true → plain_eq v w ≡ true → plain_eq u w ≡ true
value_eq-trans_plain u v w h k = subst (λ x. plain_eq u x ≡ true) (plain_eq_sound v w k) h
