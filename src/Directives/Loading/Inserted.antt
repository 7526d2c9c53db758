-- ===== src/Directives/Loading/Inserted.antt =====
-- Inserting a module into those that are loaded.
use lopez.Prelude.{
  Text, text_eq_refl, text_cmp, Ordering, true, List, [], ◌∷◌, ok, All, ◌≡◌, refl, arith,
}
use lopez.Directives.Loading.{
  Files, Item, import, other, Modules, contains_key, sub_module_name, put_module, insert_module,
}

text_cmp-eq : (s t : Text) → text_cmp s t ≡ Ordering.eq → s ≡ t
text_cmp-eq [] [] h = refl
text_cmp-eq [] (y ∷ ys) h = absurd (cc)
text_cmp-eq (x ∷ xs) [] h = absurd (cc)
text_cmp-eq (x ∷ xs) (y ∷ ys) h = ground (arith, text_cmp-eq xs ys)

module _ (files : Files) where
  abbrev pub Has : Text → Modules files → Type 0
  Has name modules = contains_key files name modules ≡ true

  abbrev pub Keeps : Modules files → Modules files → Type 0
  Keeps ms ms' = (n : Text) → Has n ms → Has n ms'

  -- The import of a module is loaded.
  abbrev pub ImportIn : Modules files → Text → Item files.Other → Type 0
  ImportIn ms name (import path) =
      (sub : Text) → sub_module_name files name path ≡ ok sub → Has sub ms
  ImportIn ms name (other item) = Unit

  -- All imports of all modules that are loaded are loaded.
  abbrev pub Closed : Modules files → Modules files → Type 0
  Closed all ms = All (λ (m : Text × List (Item files.Other)). All (ImportIn all m.0) m.1) ms

  pub ImportsIn-Keeps :
      (ms ms' : Modules files) (name : Text) (items : List (Item files.Other))
      → Keeps ms ms'
      → All (ImportIn ms name) items
      → All (ImportIn ms' name) items
  ImportsIn-Keeps ms ms' name [] k h = tt
  ImportsIn-Keeps ms ms' name (import path ∷ items) k (h, hs) =
      ((λ sub e. k sub (h sub e)), ImportsIn-Keeps ms ms' name items k hs)
  ImportsIn-Keeps ms ms' name (other item ∷ items) k (h, hs) =
      (tt, ImportsIn-Keeps ms ms' name items k hs)

  pub Closed-Keeps : (all all' ms : Modules files) → Keeps all all' → Closed all ms → Closed all' ms
  Closed-Keeps all all' [] k h = tt
  Closed-Keeps all all' (m ∷ ms) k (h, hs) =
      (ImportsIn-Keeps all all' m.0 m.1 k h, Closed-Keeps all all' ms k hs)

  put_module-Has :
      (o : Ordering) (m n : Text × List (Item files.Other)) (ns rest : Modules files)
      → text_cmp m.0 n.0 ≡ o
      → Has m.0 rest
      → Keeps ns rest
      → Has m.0 (put_module files o m n ns rest) × Keeps (n ∷ ns) (put_module files o m n ns rest)
  put_module-Has Ordering.lt m n ns rest e h k = (rw (text_eq_refl m.0) refl, λ x hx. ground arith)
  put_module-Has Ordering.eq m n ns rest e h k =
      (rw (text_eq_refl m.0) refl, λ x hx. rw (text_cmp-eq m.0 n.0 e) hx)
  put_module-Has Ordering.gt m n ns rest e h k = (ground arith, λ x hx. ground (arith, k x))

  pub insert_module-Has :
      (m : Text × List (Item files.Other)) (ms : Modules files)
      → Has m.0 (insert_module files m ms) × Keeps ms (insert_module files m ms)
  unfolding insert_module
  insert_module-Has m [] = (rw (text_eq_refl m.0) refl, λ n h. absurd (cc))
  insert_module-Has m (n ∷ ns) =
      let (h, k) = insert_module-Has m ns in
      put_module-Has (text_cmp m.0 n.0) m n ns (insert_module files m ns) refl h k

  put_module-Closed :
      (all : Modules files) (o : Ordering) (m n : Text × List (Item files.Other))
      (ns rest : Modules files)
      → All (ImportIn all m.0) m.1
      → Closed all (n ∷ ns)
      → Closed all rest
      → Closed all (put_module files o m n ns rest)
  put_module-Closed all Ordering.lt m n ns rest h k r = (h, k)
  put_module-Closed all Ordering.eq m n ns rest h k r = (h, k.1)
  put_module-Closed all Ordering.gt m n ns rest h k r = (k.0, r)

  pub insert_module-Closed :
      (all : Modules files) (m : Text × List (Item files.Other)) (ms : Modules files)
      → All (ImportIn all m.0) m.1
      → Closed all ms
      → Closed all (insert_module files m ms)
  unfolding insert_module
  insert_module-Closed all m [] h k = (h, tt)
  insert_module-Closed all m (n ∷ ns) h k =
      put_module-Closed all (text_cmp m.0 n.0) m n ns (insert_module files m ns) h k
        (insert_module-Closed all m ns h k.1)
