-- ===== src/Request/Lengths.antt =====
-- What the header store of a request says about the length of its body, and that `kv_add` and
-- `kv_extend` of httpd.c keep it.
use Prim.Native.Nat.{Ordering}
use fuzz_httpd.Base.{
  ℕ, zero, suc, true, false, List, [], ◌∷◌, ◌++◌, ◌≡◌, ap, sym, ◌∙◌, append-nil, Option, none, some,
  Bytes, codes, append_assoc, ◌⊎◌, inl, inr, str_case_eq, strtonum, if-intro,
}
use fuzz_httpd.Kv.{
  by_order, case_compare, Child, Kv, Kvtree, KvRef, add_child, extend, is_eq, kv_add, kv_extend,
  kv_insert, update, update_child, update_kv,
}
use fuzz_httpd.Range.{llong_max}
use fuzz_httpd.RequestLine.{
  ClientToread, left, unlimited, http_header, chunk_length, chunk_trailer, nothing,
}

-- A header named Content-Length with the number `n`, which later lines may have extended by `more`.
abbrev pub Says : ℕ → Bytes → Option Bytes → Type 0
Says n key value =
    (v more : Bytes) × (value ≡ some (v ++ more))
    × (str_case_eq (codes "Content-Length") key ≡ true)
    × (strtonum v 0 llong_max ≡ some n)

abbrev pub AnySays : ℕ → List Child → Type 0
AnySays n [] = ⊥
AnySays n (c ∷ cs) = Says n c.child_key c.child_value ⊎ AnySays n cs

-- One of the headers says it.
abbrev pub Declares : ℕ → Kvtree → Type 0
Declares n [] = ⊥
Declares n (kv ∷ keys) = Says n kv.kv_key kv.kv_value ⊎ AnySays n kv.kv_children ⊎ Declares n keys

-- No header is named Content-Length.
abbrev pub NoLength : Kvtree → Type 0
NoLength [] = Unit
NoLength (kv ∷ keys) = (str_case_eq (codes "Content-Length") kv.kv_key ≡ false) × NoLength keys

-- While the headers are read: a number of bytes is that of a header, and without one there is no such
-- header.
abbrev pub Tells : ClientToread → Kvtree → Type 0
Tells (left n) keys = Declares n keys
Tells http_header keys = NoLength keys
Tells unlimited keys = ⊥
Tells chunk_length keys = ⊥
Tells chunk_trailer keys = ⊥
Tells nothing keys = ⊥

by_order-intro :
    {A : Type 0} (P : A → Type 0) (o : Ordering) (x y z : A)
    → P x
    → P y
    → P z
    → P (by_order o x y z)
by_order-intro P Ordering.lt x y z hx hy hz = hx
by_order-intro P Ordering.eq x y z hx hy hz = hy
by_order-intro P Ordering.gt x y z hx hy hz = hz

AnySays-append_left : (n : ℕ) (cs ds : List Child) → AnySays n cs → AnySays n (cs ++ ds)
AnySays-append_left n [] ds h = elim h [ ]
AnySays-append_left n (c ∷ cs) ds (inl h) = inl h
AnySays-append_left n (c ∷ cs) ds (inr h) = inr (AnySays-append_left n cs ds h)

AnySays-append_right : (n : ℕ) (cs ds : List Child) → AnySays n ds → AnySays n (cs ++ ds)
AnySays-append_right n [] ds h = h
AnySays-append_right n (c ∷ cs) ds h = inr (AnySays-append_right n cs ds h)

module _ (n : ℕ) (key : Bytes) (value : Option Bytes) where
  insert-Declares_new : (keys : Kvtree) → Says n key value → Declares n (kv_insert key value keys).0
  unfolding kv_insert
  insert-Declares_new [] h = inl h
  insert-Declares_new (kv ∷ keys) h =
      by_order-intro {A = Kvtree × KvRef} (λ r. Declares n r.0) (case_compare key kv.kv_key) _ _ _
        (inl h) (inr (inl (AnySays-append_right n kv.kv_children _ (inl h))))
        (inr (inr (insert-Declares_new keys h)))

  with_child-Declares :
      (kv : Kv) (keys : Kvtree)
      → Declares n (kv ∷ keys)
      → Declares n (add_child kv key value ∷ keys)
  with_child-Declares kv keys (inl h) = inl h
  with_child-Declares kv keys (inr (inl h)) = inr (inl (AnySays-append_left n kv.kv_children _ h))
  with_child-Declares kv keys (inr (inr h)) = inr (inr h)

  behind-Declares :
      (kv : Kv) (keys keys' : Kvtree)
      → (Declares n keys → Declares n keys')
      → Declares n (kv ∷ keys)
      → Declares n (kv ∷ keys')
  behind-Declares kv keys keys' k (inl h) = inl h
  behind-Declares kv keys keys' k (inr (inl h)) = inr (inl h)
  behind-Declares kv keys keys' k (inr (inr h)) = inr (inr (k h))

  insert-Declares_old : (keys : Kvtree) → Declares n keys → Declares n (kv_insert key value keys).0
  unfolding kv_insert
  insert-Declares_old [] h = elim h [ ]
  insert-Declares_old (kv ∷ keys) h =
      by_order-intro {A = Kvtree × KvRef} (λ r. Declares n r.0) (case_compare key kv.kv_key) _ _ _
        (inr (inr h)) (with_child-Declares kv keys h)
        (behind-Declares kv keys (kv_insert key value keys).0 (insert-Declares_old keys) h)

  insert-NoLength :
      (keys : Kvtree)
      → str_case_eq (codes "Content-Length") key ≡ false
      → NoLength keys
      → NoLength (kv_insert key value keys).0
  unfolding kv_insert
  insert-NoLength [] e h = (e, tt)
  insert-NoLength (kv ∷ keys) e (hk, h) =
      by_order-intro {A = Kvtree × KvRef} (λ r. NoLength r.0) (case_compare key kv.kv_key) _ _ _
        (e, (hk, h)) (hk, h) (hk, insert-NoLength keys e h)

module _ (n : ℕ) (more : Bytes) where
  extend-Says :
      (key : Bytes) (value : Option Bytes) → Says n key value → Says n key (extend more value)
  extend-Says key none (v, old, e, named, number) = cc
  extend-Says key (some x) (v, old, e, named, number) =
      (v, old ++ more, ap (extend more) e ∙ ap some (append_assoc v old more), named, number)

  children-AnySays :
      (cs : List Child) (i : ℕ) → AnySays n cs → AnySays n (update_child cs i (extend more))
  children-AnySays [] i h = elim h [ ]
  children-AnySays (c ∷ cs) zero (inl h) = inl (extend-Says c.child_key c.child_value h)
  children-AnySays (c ∷ cs) zero (inr h) = inr h
  children-AnySays (c ∷ cs) (suc i) (inl h) = inl h
  children-AnySays (c ∷ cs) (suc i) (inr h) = inr (children-AnySays cs i h)

  update_kv-Declares :
      (kv : Kv) (child : Option ℕ) (keys : Kvtree)
      → Declares n (kv ∷ keys)
      → Declares n (update_kv kv child true (extend more) ∷ keys)
  update_kv-Declares kv none keys (inl h) = inl (extend-Says kv.kv_key kv.kv_value h)
  update_kv-Declares kv none keys (inr h) = inr h
  update_kv-Declares kv (some i) keys (inl h) = inl h
  update_kv-Declares kv (some i) keys (inr (inl h)) =
      inr (inl (children-AnySays kv.kv_children i h))
  update_kv-Declares kv (some i) keys (inr (inr h)) = inr (inr h)

  update-Declares :
      (keys : Kvtree) (ref : KvRef)
      → Declares n keys
      → Declares n (update keys ref true (extend more))
  unfolding update
  update-Declares [] ref h = elim h [ ]
  update-Declares (kv ∷ keys) ref h =
      if-intro (Declares n) (is_eq (case_compare ref.node kv.kv_key)) _ _
        (λ _. update_kv-Declares kv ref.child keys h)
        (λ _.
          behind-Declares n [] none kv keys (update keys ref true (extend more))
            (update-Declares keys ref) h)

update_kv-NoLength :
    (more : Bytes) (kv : Kv) (child : Option ℕ) (keys : Kvtree)
    → NoLength (kv ∷ keys)
    → NoLength (update_kv kv child true (extend more) ∷ keys)
update_kv-NoLength more kv none keys h = h
update_kv-NoLength more kv (some i) keys h = h

update-NoLength :
    (more : Bytes) (keys : Kvtree) (ref : KvRef)
    → NoLength keys
    → NoLength (update keys ref true (extend more))
unfolding update
update-NoLength more [] ref h = tt
update-NoLength more (kv ∷ keys) ref (hk, h) =
    if-intro NoLength (is_eq (case_compare ref.node kv.kv_key)) _ _
      (λ _. update_kv-NoLength more kv ref.child keys (hk, h))
      (λ _. (hk, update-NoLength more keys ref h))

-- The header that says the length is added.
pub kv_add-Declares :
    (n : ℕ) (keys : Kvtree) (key value : Bytes)
    → str_case_eq (codes "Content-Length") key ≡ true
    → strtonum value 0 llong_max ≡ some n
    → Declares n (kv_add keys (some key) (some value)).0
unfolding kv_add
kv_add-Declares n keys key value named number =
    insert-Declares_new n key (some value) keys
      (value, [], ap some (sym (append-nil value)), named, number)

-- Another header keeps what they tell.
pub kv_add-Tells :
    (t : ClientToread) (keys : Kvtree) (key value : Bytes)
    → str_case_eq (codes "Content-Length") key ≡ false
    → Tells t keys
    → Tells t (kv_add keys (some key) (some value)).0
unfolding kv_add
kv_add-Tells (left n) keys key value e h = insert-Declares_old n key (some value) keys h
kv_add-Tells http_header keys key value e h = insert-NoLength 0 key (some value) keys e h
kv_add-Tells unlimited keys key value e h = h
kv_add-Tells chunk_length keys key value e h = h
kv_add-Tells chunk_trailer keys key value e h = h
kv_add-Tells nothing keys key value e h = h

update-Tells :
    (t : ClientToread) (keys : Kvtree) (ref : KvRef) (more : Bytes)
    → Tells t keys
    → Tells t (update keys ref true (extend more))
update-Tells (left n) keys ref more h = update-Declares n more keys ref h
update-Tells http_header keys ref more h = update-NoLength more keys ref h
update-Tells unlimited keys ref more h = h
update-Tells chunk_length keys ref more h = h
update-Tells chunk_trailer keys ref more h = h
update-Tells nothing keys ref more h = h

-- So does a line that extends the last one.
pub kv_extend-Tells :
    (t : ClientToread) (keys : Kvtree) (kv : Option KvRef) (more : Bytes)
    → Tells t keys
    → Tells t (kv_extend keys kv more).0
unfolding kv_extend
kv_extend-Tells t keys none more h = h
kv_extend-Tells t keys (some kv) more h = update-Tells t keys kv more h
