-- ===== src/Sync/Grid.antt =====
-- Columns of blocks and of hashes: `_resize_side` and `_ensure_index` of core/dataset_sync.py, seen
-- through `cell`, which reads a position that is not there as the fill value.
use neuralese.Prelude.{
  ℕ, zero, suc, ◌+◌, ◌-◌, ◌<◌, ◌≤◌, ◌≡◌, refl, ◌&&◌, List, [], ◌∷◌, ◌++◌, arith, ltb, eqb,
  if◌then◌else◌, length, take, replicate, length-append, length-take, length-replicate,
}

module _ {ℓ} {A : Type ℓ} where
  abbrev pub get_or : List A → ℕ → A → A
  get_or [] i d = d
  get_or (x ∷ xs) zero d = x
  get_or (x ∷ xs) (suc i) d = get_or xs i d

  -- `del xs[n:]`, then `xs.append(fill)` up to length `n`
  unfoldable pub resize : A → ℕ → List A → List A
  resize fill n xs = take n xs ++ replicate (n - length xs) fill

  -- `_ensure_index(items, index, fill)`
  unfoldable pub ensure_index : List A → ℕ → A → List A
  ensure_index items index fill = items ++ replicate (index + 1 - length items) fill

  -- `xs[i] = v`
  abbrev pub set : List A → ℕ → A → List A
  set [] i v = []
  set (x ∷ xs) zero v = v ∷ xs
  set (x ∷ xs) (suc i) v = x ∷ set xs i v

  get_or-replicate : (n i : ℕ) (d : A) → get_or (replicate n d) i d ≡ d
  get_or-replicate zero i d = refl
  get_or-replicate (suc n) zero d = refl
  get_or-replicate (suc n) (suc i) d = get_or-replicate n i d

  pub get_or-resize :
      (fill : A) (n : ℕ) (xs : List A) (i : ℕ)
      → get_or (resize fill n xs) i fill ≡ (if ltb i n then get_or xs i fill else fill)
  unfolding resize
  get_or-resize fill zero xs i = ground arith
  get_or-resize fill (suc n) [] i = ground (arith, get_or-replicate (suc n) i fill)
  get_or-resize fill (suc n) (x ∷ xs) zero = ground arith
  get_or-resize fill (suc n) (x ∷ xs) (suc i) = ground (arith, get_or-resize fill n xs i)

  get_or-set :
      (ys : List A) (i : ℕ) (fill v : A) (j : ℕ)
      → i < length ys
      → get_or (set ys i v) j fill ≡ (if eqb i j then v else get_or ys j fill)
  get_or-set [] i fill v j h = elim h [ ]
  get_or-set (y ∷ ys) zero fill v zero h = ground arith
  get_or-set (y ∷ ys) zero fill v (suc j) h = ground arith
  get_or-set (y ∷ ys) (suc i) fill v zero h = ground arith
  get_or-set (y ∷ ys) (suc i) fill v (suc j) h = ground (arith, get_or-set ys i fill v j)

  get_or-pad :
      (ys : List A) (n j : ℕ) (fill : A) → get_or (ys ++ replicate n fill) j fill ≡ get_or ys j fill
  get_or-pad [] n j fill = get_or-replicate n j fill
  get_or-pad (y ∷ ys) n zero fill = refl
  get_or-pad (y ∷ ys) n (suc j) fill = get_or-pad ys n j fill

  pub get_or-set_ensure :
      (xs : List A) (i : ℕ) (fill v : A) (j : ℕ)
      → get_or (set (ensure_index xs i fill) i v) j fill ≡ (if eqb i j then v else get_or xs j fill)
  unfolding ensure_index
  get_or-set_ensure xs i fill v j =
      let n = i + 1 - length xs in
      rw (
        get_or-set (xs ++ replicate n fill) i fill v j
            (omega (arith, length-append xs (replicate n fill), length-replicate n fill)),
        get_or-pad xs n j fill,
      )

  length-resize : (n : ℕ) (d : A) (xs : List A) → length (resize d n xs) ≡ n
  unfolding resize
  length-resize n d xs = omega (
    arith,
    length-append (take n xs) (replicate (n - length xs) d),
    length-take n xs,
    length-replicate (n - length xs) d,
  )

abbrev pub Grid {ℓ} : Type ℓ → Type ℓ
Grid A = List (List A)

module _ {ℓ} {A : Type ℓ} where
  length_beyond :
      (clients : List (List A)) (c : ℕ) → length clients ≤ c → length (get_or clients c []) ≡ 0
  length_beyond [] c h = refl
  length_beyond (x ∷ xs) zero h = absurd (omega arith)
  length_beyond (x ∷ xs) (suc c) h = length_beyond xs c (omega arith)

module _ {A : Type 0} where
  -- `grid[col][blk]`, and the fill value where there is none.
  abbrev pub cell : A → Grid A → ℕ → ℕ → A
  cell fill grid col blk = get_or (get_or grid col []) blk fill

  -- The last loop of `_resize_side`: each column gets the length of the client's.
  unfoldable pub resize_columns {κ} : {B : Type κ} → A → List (List B) → Grid A → Grid A
  resize_columns fill (client ∷ clients) (column ∷ columns) =
      resize fill (length client) column ∷ resize_columns fill clients columns
  resize_columns fill _ columns = columns

  -- What `_resize_side` does to the hashes, and to the blocks.
  unfoldable pub resize_side {κ} : {B : Type κ} → A → List (List B) → Grid A → Grid A
  resize_side fill clients grid = resize_columns fill clients (resize [] (length clients) grid)

  -- Both calls of `_ensure_index`, then `grid[col][blk] = v`.
  unfoldable pub write_cell : A → Grid A → ℕ → ℕ → A → Grid A
  write_cell fill grid col blk v =
      let columns = ensure_index grid col [] in
      let column = ensure_index (get_or columns col []) blk fill in
      set columns col (set column blk v)

  get_or-ensure_index :
      (xs : List (List A)) (i j : ℕ) → get_or (ensure_index xs i []) j [] ≡ get_or xs j []
  unfolding ensure_index
  get_or-ensure_index xs i j = get_or-pad xs (i + 1 - length xs) j []

  pub cell-write_cell :
      (fill : A) (grid : Grid A) (col blk : ℕ) (v : A) (c b : ℕ)
      → cell fill (write_cell fill grid col blk v) c b
        ≡ (if eqb col c && eqb blk b then v else cell fill grid c b)
  unfolding write_cell
  cell-write_cell fill grid col blk v c b =
      rw
        (
          get_or-set_ensure grid col []
              (set (ensure_index (get_or (ensure_index grid col []) col []) blk fill) blk v) c,
          get_or-ensure_index grid col col,
        )
        (ground (arith, get_or-set_ensure (get_or grid col []) blk fill v b))

  get_or-resize_columns {κ} :
      {B : Type κ} (fill : A) (clients : List (List B)) (columns : Grid A) (c : ℕ)
      → length columns ≡ length clients
      → get_or (resize_columns fill clients columns) c []
        ≡ resize fill (length (get_or clients c [])) (get_or columns c [])
  unfolding resize_columns
  get_or-resize_columns fill [] [] c h = unfold resize in refl
  get_or-resize_columns fill [] (x ∷ xs) c h = absurd (omega arith)
  get_or-resize_columns fill (x ∷ xs) [] c h = absurd (omega arith)
  get_or-resize_columns fill (client ∷ clients) (column ∷ columns) zero h = refl
  get_or-resize_columns fill (client ∷ clients) (column ∷ columns) (suc c) h =
      get_or-resize_columns fill clients columns c (omega arith)

  -- Inside the client's shape a position is kept; outside it is gone.
  pub cell-resize_side {κ} :
      {B : Type κ} (fill : A) (clients : List (List B)) (grid : Grid A) (c b : ℕ)
      → cell fill (resize_side fill clients grid) c b
        ≡ (if ltb b (length (get_or clients c [])) then cell fill grid c b else fill)
  unfolding resize_side
  cell-resize_side fill clients grid c b =
      rw
        (
          get_or-resize_columns fill clients (resize [] (length clients) grid) c
              (length-resize (length clients) [] grid),
          get_or-resize fill (length (get_or clients c []))
              (get_or (resize [] (length clients) grid) c []) b,
          get_or-resize [] (length clients) grid c,
        )
        (ground (arith, length_beyond clients c))
