-- ===== src/Clients/Tree.antt =====
-- The tree of the clients of server.c: what its changes leave of what is counted.
use fuzz_httpd.Base.{
  ℕ, suc, ◌+◌, ◌≤◌, ◌≡◌, ◌⊎◌, refl, sym, ap, subst, ◌∙◌, true, false, List, [], ◌∷◌, arith,
  Bool-cases, inl, inr, length, ◌==◌, ==_iff, if◌then◌else◌,
}
use fuzz_httpd.Clients.{Connection, remove, update}

-- how many clients are in flight
abbrev pub inflight : List Connection → ℕ
inflight [] = 0
inflight (c ∷ clients) = (if c.clt_inflight then 1 else 0) + inflight clients

abbrev pub Without : ℕ → List Connection → Type 0
Without id [] = Unit
Without id (c ∷ clients) = ((c.clt_id == id) ≡ false) × Without id clients

abbrev pub Distinct : List Connection → Type 0
Distinct [] = Unit
Distinct (c ∷ clients) = Without c.clt_id clients × Distinct clients

abbrev pub IsClient : Connection → List Connection → Type 0
IsClient c [] = ⊥
IsClient c (d ∷ clients) = (c ≡ d) ⊎ IsClient c clients

pub inflight-length : (clients : List Connection) → inflight clients ≤ length clients
inflight-length [] = omega arith
inflight-length (c ∷ clients) = ground (arith, inflight-length clients)

Without-client :
    (id : ℕ) (c : Connection) (clients : List Connection)
    → Without id clients
    → IsClient c clients
    → (c.clt_id == id) ≡ false
Without-client id c [] h m = absurd m
Without-client id c (d ∷ clients) (e, h) (inl same) = rw same e
Without-client id c (d ∷ clients) (e, h) (inr more) = Without-client id c clients h more

refl_eq : (n : ℕ) → (n == n) ≡ true
refl_eq n = (==_iff n n).1 refl

-- Removing a client leaves one less, and its flag less.
pub remove-lem :
    (c : Connection) (clients : List Connection)
    → Distinct clients
    → IsClient c clients
    → (suc (length (remove c.clt_id clients)) ≡ length clients)
      × ((if c.clt_inflight then 1 else 0) + inflight (remove c.clt_id clients) ≡ inflight clients)
unfolding remove
remove-lem c [] h m = absurd m
remove-lem c (d ∷ clients) (fresh, h) (inl same) =
    let e : (d.clt_id == c.clt_id) ≡ true =
      (==_iff d.clt_id c.clt_id).1 (sym (ap (λ (x : Connection). x.clt_id) same)) in
    rw e (refl, ap (λ (x : Connection). (if x.clt_inflight then 1 else 0) + inflight clients) same)
remove-lem c (d ∷ clients) (fresh, h) (inr more) =
    let other = Without-client d.clt_id c clients fresh more in
    let e : (d.clt_id == c.clt_id) ≡ false = ground (arith, other) in
    let (a, b) = remove-lem c clients h more in rw e (ap suc a, omega (arith, b))

Without-remove :
    (id i : ℕ) (clients : List Connection) → Without id clients → Without id (remove i clients)
unfolding remove
Without-remove id i [] h = tt
Without-remove id i (d ∷ clients) (e, h) = elim (Bool-cases (d.clt_id == i)) [
  | inl same ↦ rw same h
  | inr other ↦ rw other (e, Without-remove id i clients h)
]

pub Distinct-remove :
    (i : ℕ) (clients : List Connection) → Distinct clients → Distinct (remove i clients)
unfolding remove
Distinct-remove i [] h = tt
Distinct-remove i (d ∷ clients) (e, h) = elim (Bool-cases (d.clt_id == i)) [
  | inl same ↦ rw same h
  | inr other ↦ rw other (Without-remove d.clt_id i clients e, Distinct-remove i clients h)
]

-- Writing to a client leaves what is counted.
pub update-lem :
    (c c' : Connection) (clients : List Connection)
    → c'.clt_id ≡ c.clt_id
    → c'.clt_inflight ≡ c.clt_inflight
    → Distinct clients
    → IsClient c clients
    → (length (update c' clients) ≡ length clients)
      × (inflight (update c' clients) ≡ inflight clients)
unfolding update
update-lem c c' [] i f h m = absurd m
update-lem c c' (d ∷ clients) i f (fresh, h) (inl same) =
    let e : (d.clt_id == c'.clt_id) ≡ true =
      (==_iff d.clt_id c'.clt_id).1 (sym (i ∙ ap (λ (x : Connection). x.clt_id) same)) in
    rw e (
      refl,
      ap (λ b. (if b then 1 else 0) + inflight clients)
          (f ∙ ap (λ (x : Connection). x.clt_inflight) same),
    )
update-lem c c' (d ∷ clients) i f (fresh, h) (inr more) =
    let other = Without-client d.clt_id c clients fresh more in
    let e : (d.clt_id == c'.clt_id) ≡ false = ground (arith, other, i) in
    let (a, b) = update-lem c c' clients i f h more in rw e (ap suc a, omega (arith, b))

Without-update :
    (id : ℕ) (c : Connection) (clients : List Connection)
    → Without id clients
    → Without id (update c clients)
unfolding update
Without-update id c [] h = tt
Without-update id c (d ∷ clients) (e, h) = elim (Bool-cases (d.clt_id == c.clt_id)) [
  | inl same ↦ rw same (subst (λ i. (i == id) ≡ false) ((==_iff d.clt_id c.clt_id).0 same) e, h)
  | inr other ↦ rw other (e, Without-update id c clients h)
]

pub Distinct-update :
    (c : Connection) (clients : List Connection) → Distinct clients → Distinct (update c clients)
unfolding update
Distinct-update c [] h = tt
Distinct-update c (d ∷ clients) (e, h) = elim (Bool-cases (d.clt_id == c.clt_id)) [
  | inl same ↦ rw same (subst (λ i. Without i clients) ((==_iff d.clt_id c.clt_id).0 same) e, h)
  | inr other ↦ rw other (Without-update d.clt_id c clients e, Distinct-update c clients h)
]
