-- ===== src/Aoi/Cells.antt =====
-- The cells of AOIServer.cpp as sets of entities.
use rpg_server.Base.{
  ℕ, ◌≡◌, refl, sym, ap, inl, inr, not, ◌&&◌, ◌||◌, none, some, List, arith, ◌==◌, if◌then◌else◌,
  ==_iff, Bool-cases, Option-cases, nat_eq, contains, set_insert, set_erase, contains-set_insert,
  contains-set_erase, Table, find, insert, find-insert,
}
use rpg_server.Aoi.{cell_of, put_in, take_out, take_out_if}

pub cell_of-insert :
    (k j : ℕ) (ids : List ℕ) (m : Table ℕ (List ℕ))
    → cell_of j (insert k ids m) ≡ (if k == j then ids else cell_of j m)
cell_of-insert k j ids m = ground (arith, find-insert k j ids m)

pub contains-put_in :
    (k j id other : ℕ) (m : Table ℕ (List ℕ))
    → contains other (cell_of j (put_in k id m))
      ≡ (k == j && id == other) || contains other (cell_of j m)
unfolding put_in
contains-put_in k j id other m = ground (
  arith,
  cell_of-insert k j (set_insert id (cell_of k m)) m,
  contains-set_insert id other (cell_of k m),
  ==_iff k j,
)

pub contains-take_out :
    (k j id other : ℕ) (m : Table ℕ (List ℕ))
    → contains other (cell_of j (take_out k id m))
      ≡ not (k == j && id == other) && contains other (cell_of j m)
unfolding take_out
contains-take_out k j id other m = ground (
  arith,
  cell_of-insert k j (set_erase id (cell_of k m)) m,
  contains-set_erase id other (cell_of k m),
  ==_iff k j,
)

take_out_if_there :
    (k id : ℕ) (m : Table ℕ (List ℕ)) {ids : List ℕ}
    → find k m ≡ some ids
    → take_out_if k id m ≡ take_out k id m
unfolding take_out_if take_out
take_out_if_there k id m {ids} e =
    let cell : cell_of k m ≡ ids = rw (e, cell_of) refl in
    rw (e, take_out_if) (sym (ap (λ xs. insert k (set_erase id xs) m) cell))

take_out_if_missing : (k id : ℕ) (m : Table ℕ (List ℕ)) → find k m ≡ none → take_out_if k id m ≡ m
unfolding take_out_if
take_out_if_missing k id m e = rw (e, take_out_if) refl

pub contains-take_out_if :
    (k j id other : ℕ) (m : Table ℕ (List ℕ))
    → contains other (cell_of j (take_out_if k id m))
      ≡ not (k == j && id == other) && contains other (cell_of j m)
unfolding contains
contains-take_out_if k j id other m = elim (Option-cases (find k m)) [
  | inl e ↦ rw (take_out_if_missing k id m e) (elim (Bool-cases (k == j)) [
    | inl same ↦
        let same_key = ==_iff k j in
        ground (arith, ap (λ i. contains other (cell_of i m)) (same_key.0 same), e, same)
    | inr differs ↦ rw differs refl
  ])
  | inr (ids, e) ↦ rw (take_out_if_there k id m e) (contains-take_out k j id other m)
]
