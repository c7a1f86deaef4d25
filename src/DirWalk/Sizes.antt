-- ===== src/DirWalk/Sizes.antt =====
-- What `measureDir` adds up.
use limiz.Base.{
  ℕ, ◌+◌, ◌%◌, ◌^◌, ◌<◌, Text, ◌++◌, true, none, some, List, [], ◌∷◌, length, ◌≡◌, ◌∙◌, ap, refl,
  arith, length-append, append-nil, append_assoc,
}
use limiz.DirWalk.{
  Node, file, symlink, directory, Entries, nil, cons, Totals, visit, walk, walk_entries, FileSystem,
  found, measure_dir, measured, zero_totals, walk_dir,
}

abbrev pub sum : List ℕ → ℕ
sum [] = 0
sum (n ∷ ns) = n + sum ns

sum-append : (ns ms : List ℕ) → sum (ns ++ ms) ≡ sum ns + sum ms
sum-append [] ms = omega arith
sum-append (n ∷ ns) ms = omega (arith, sum-append ns ms)

-- the sizes of the files in a tree whose size can be read
unfoldable mutual
  pub sizes : Node → List ℕ
  sizes (directory unread es) = sizes_of es
  sizes symlink = []
  sizes (file none) = []
  sizes (file (some n)) = n ∷ []

  pub sizes_of : Entries → List ℕ
  sizes_of nil = []
  sizes_of (cons name n es) = sizes n ++ sizes_of es

-- the totals behind more files
abbrev plus : Totals → List ℕ → Totals
plus t ns = record { bytes = (t.bytes + sum ns) % 2 ^ 64; files = (t.files + length ns) % 2 ^ 64 }

Totals-eq : {s t : Totals} → s.bytes ≡ t.bytes → s.files ≡ t.files → s ≡ t
Totals-eq p q = λ i. record { bytes = p i; files = q i }

visit-plus :
    (t : Totals) (ns : List ℕ) (n : ℕ) → visit (file (some n)) (plus t ns) ≡ plus t (ns ++ n ∷ [])
unfolding visit
visit-plus t ns n =
    Totals-eq (omega (arith, sum-append ns (n ∷ []))) (omega (arith, length-append ns (n ∷ [])))

mutual
  unfolding walk sizes

  walk-plus : (n : Node) (t : Totals) (ns : List ℕ) → walk n (plus t ns) ≡ plus t (ns ++ sizes n)
  walk-plus (file none) t ns = rw append-nil refl
  walk-plus (file (some n)) t ns = visit-plus t ns n
  walk-plus symlink t ns = rw append-nil refl
  walk-plus (directory unread es) t ns = walk_entries-plus es t ns

  walk_entries-plus :
      (es : Entries) (t : Totals) (ns : List ℕ)
      → walk_entries es (plus t ns) ≡ plus t (ns ++ sizes_of es)
  walk_entries-plus nil t ns = rw append-nil refl
  walk_entries-plus (cons name n es) t ns =
      ap (walk_entries es) (walk-plus n t ns)
      ∙ walk_entries-plus es t (ns ++ sizes n)
      ∙ ap (plus t) (append_assoc ns (sizes n) (sizes_of es))

-- Of a directory whose files have fewer than 2^63 bytes, and are fewer than 2^63, the totals are the
-- sum of the sizes of all files under it whose size can be read, and their number: links are not
-- followed, and a directory that cannot be read to its end counts with what has been read of it.
pub measure_dir-sizes :
    (fs : FileSystem) (root : Text) (n : Node)
    → fs.stat root ≡ found true
    → fs.lstat root ≡ some n
    → sum (sizes n) < 2 ^ 63
    → length (sizes n) < 2 ^ 63
    → measure_dir fs root ≡ measured (record { bytes = sum (sizes n); files = length (sizes n) })
unfolding measure_dir walk_dir
measure_dir-sizes fs root n hs hl hb hf =
    rw (hs, hl) (ap measured (walk-plus n zero_totals [] ∙ Totals-eq (omega arith) (omega arith)))
