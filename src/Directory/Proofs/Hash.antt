-- ===== src/Directory/Proofs/Hash.antt =====
-- What the hash of a proof depends on.
use tfexplorer.Base.{
  ℕ, zero, suc, ◌+◌, ◌≡◌, refl, sym, ap, ◌∙◌, List, [], ◌∷◌, map, length, length-append, arith,
}
use tfexplorer.Base.Text.{Text}
use tfexplorer.Directory.Proofs.{
  Kv, insert_kv, sort_kvs, make_kvs, marshal_rest, marshal_kvs, kvs_of, hash_proof,
}

length-insert_kv : (x : Kv) (xs : List Kv) → length (insert_kv x xs) ≡ suc (length xs)
unfolding insert_kv
length-insert_kv x [] = refl
length-insert_kv x (y ∷ ys) = ground (arith, length-insert_kv x ys)

length-sort_kvs : (xs : List Kv) → length (sort_kvs xs) ≡ length xs
unfolding sort_kvs
length-sort_kvs [] = refl
length-sort_kvs (x ∷ xs) = length-insert_kv x (sort_kvs xs) ∙ ap suc (length-sort_kvs xs)

length-make_kvs : (n : ℕ) → length (make_kvs n) ≡ n
unfolding make_kvs
length-make_kvs zero = refl
length-make_kvs (suc n) = ap suc (length-make_kvs n)

length-map : {A B : Type 0} (f : A → B) (xs : List A) → length (map f xs) ≡ length xs
length-map f [] = refl
length-map f (x ∷ xs) = ap suc (length-map f xs)

-- Lists of equal length have the same JSON text.
marshal_rest-length : (xs ys : List Kv) → length xs ≡ length ys → marshal_rest xs ≡ marshal_rest ys
unfolding marshal_rest
marshal_rest-length [] [] h = refl
marshal_rest-length [] (y ∷ ys) h = absurd (omega arith)
marshal_rest-length (x ∷ xs) [] h = absurd (omega arith)
marshal_rest-length (x ∷ xs) (y ∷ ys) h = rw (marshal_rest-length xs ys (omega arith)) refl

marshal_kvs-length : (xs ys : List Kv) → length xs ≡ length ys → marshal_kvs xs ≡ marshal_kvs ys
unfolding marshal_kvs
marshal_kvs-length [] [] h = refl
marshal_kvs-length [] (y ∷ ys) h = absurd (omega arith)
marshal_kvs-length (x ∷ xs) [] h = absurd (omega arith)
marshal_kvs-length (x ∷ xs) (y ∷ ys) h = rw (marshal_rest-length xs ys (omega arith)) refl

length-kvs_of : (p : List (Text × Text)) → length (sort_kvs (kvs_of p)) ≡ length p + length p
unfolding kvs_of
length-kvs_of p =
    length-sort_kvs _
    ∙ length-append (make_kvs (length p)) (map _ p)
    ∙ omega (arith, length-make_kvs (length p), length-map _ p)

-- The hash of a proof depends only on the number of its entries: maps with equally many entries have
-- the same hash, whatever their keys and values are.
pub hash_proof-length :
    (p q : List (Text × Text)) → length p ≡ length q → hash_proof p ≡ hash_proof q
unfolding hash_proof
hash_proof-length p q h =
    rw
      (marshal_kvs-length (sort_kvs (kvs_of p)) (sort_kvs (kvs_of q))
        (length-kvs_of p ∙ rw h refl ∙ sym (length-kvs_of q)))
      refl
