-- ===== src/Server/Tsv/Privacy.antt =====
-- What the writer sends of an anonymized column does not depend on the column's value.
use jibs.Prelude.{
  ℕ, ◌+◌, Bool, true, false, List, [], ◌∷◌, Option, none, some, ◌≡◌, refl, Bytes, get_elem?, get_or,
  ◌∙◌,
}
use jibs.Server.Keys.Values.{MySqlValue}
use jibs.Server.Tsv.Foreign.{Crates}
use jibs.Server.Tsv.{
  AnonAction, to_null, faker, faker_unique, Column, TsvWriter, write_choice, write_unique,
  write_cell, write_cells, write_row,
}

-- The rows agree, from index `i` on, at the columns that have no anonymization.
abbrev pub AgreeFrom : ℕ → List Column → List MySqlValue → List MySqlValue → Type 0
AgreeFrom i [] row row' = Unit
AgreeFrom i (c ∷ cs) row row' =
    (c.action ≡ none → get_elem? row i ≡ get_elem? row' i) × AgreeFrom (i + 1) cs row row'

module _ {R : Type 0} (crates : Crates R) where
  write_cell-private :
      (action : Option AnonAction) (is_binary : Bool) (v v' : Option MySqlValue) (w : TsvWriter R)
      → (action ≡ none → v ≡ v')
      → write_cell crates action is_binary v w ≡ write_cell crates action is_binary v' w
  unfolding write_cell
  write_cell-private none is_binary v v' w h = rw (h refl)
  write_cell-private (some to_null) is_binary v v' w h = refl
  write_cell-private (some (faker pool)) true v v' w h = refl
  write_cell-private (some (faker pool)) false v v' w h = refl
  write_cell-private (some (faker_unique pool)) is_binary v v' w h = refl

  write_cells-private :
      (i : ℕ) (cs : List Column) (row row' : List MySqlValue) (w : TsvWriter R)
      → AgreeFrom i cs row row'
      → write_cells crates i cs row w ≡ write_cells crates i cs row' w
  unfolding write_cells
  write_cells-private i [] row row' w h = refl
  write_cells-private i (c ∷ cs) row row' w h =
      rw (write_cell-private c.action c.is_binary (get_elem? row i) (get_elem? row' i) _ h.0)
        (write_cells-private (i + 1) cs row row' _ h.1)

  -- Two rows that agree at every column without an anonymization are written as the same bytes, and
  -- leave the writer in the same state, whatever the anonymized columns hold.
  pub write_row-private :
      (w : TsvWriter R) (row row' : List MySqlValue)
      → AgreeFrom 0 w.columns row row'
      → write_row crates w row ≡ write_row crates w row'
  unfolding write_row
  write_row-private w row row' h = rw (write_cells-private 0 w.columns row row' w h)

  write_unique-columns :
      (is_binary : Bool) (pool : List Bytes) (w : TsvWriter R)
      → (write_unique crates is_binary pool w).columns ≡ w.columns
  unfolding write_unique
  write_unique-columns is_binary [] w = refl
  write_unique-columns is_binary (p ∷ pool) w = refl

  write_cell-columns :
      (action : Option AnonAction) (is_binary : Bool) (v : Option MySqlValue) (w : TsvWriter R)
      → (write_cell crates action is_binary v w).columns ≡ w.columns
  unfolding write_cell write_choice write_unique
  write_cell-columns none is_binary v w = refl
  write_cell-columns (some to_null) is_binary v w = refl
  write_cell-columns (some (faker pool)) true v w = refl
  write_cell-columns (some (faker pool)) false v w = refl
  write_cell-columns (some (faker_unique pool)) is_binary v w =
      write_unique-columns is_binary (get_or w.faker_pools_raw pool []) w

  write_cells-columns :
      (i : ℕ) (cs : List Column) (row : List MySqlValue) (w : TsvWriter R)
      → (write_cells crates i cs row w).columns ≡ w.columns
  unfolding write_cells
  write_cells-columns i [] row w = refl
  write_cells-columns i (c ∷ cs) row w =
      write_cells-columns (i + 1) cs row _
      ∙ write_cell-columns c.action c.is_binary (get_elem? row i) _

  write_row-columns :
      (w : TsvWriter R) (row : List MySqlValue) → (write_row crates w row).columns ≡ w.columns
  unfolding write_row
  write_row-columns w row = write_cells-columns 0 w.columns row w

  -- The rows of a chunk, or of a table.
  pub write_rows : TsvWriter R → List (List MySqlValue) → TsvWriter R
  unfolding write_row
  write_rows w [] = w
  write_rows w (row ∷ rows) = write_rows (write_row crates w row) rows

  -- Rows that agree, one by one, at the columns without an anonymization.
  abbrev pub AgreeRows : List Column → List (List MySqlValue) → List (List MySqlValue) → Type 0
  AgreeRows cs [] [] = Unit
  AgreeRows cs (row ∷ rows) (row' ∷ rows') = AgreeFrom 0 cs row row' × AgreeRows cs rows rows'
  AgreeRows cs _ _ = ⊥

  pub write_rows-private :
      (w : TsvWriter R) (rows rows' : List (List MySqlValue))
      → AgreeRows w.columns rows rows'
      → write_rows w rows ≡ write_rows w rows'
  unfolding write_rows
  write_rows-private w [] [] h = refl
  write_rows-private w (row ∷ rows) (row' ∷ rows') (h, hs) =
      rw (write_row-private w row row' h)
        (write_rows-private (write_row crates w row') rows rows' (rw write_row-columns hs))
  write_rows-private w [] (_ ∷ _) h = absurd h
  write_rows-private w (_ ∷ _) [] h = absurd h
