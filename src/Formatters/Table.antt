-- ===== src/Formatters/Table.antt =====
-- `short_table` and `_display_value` of formatters.py. How Python prints a scalar and YAML a collection are
-- parameters.
use Prim.Native.Char.{Char}
use Prim.Native.String.{◌++◌}
use Prim.Native.String.append
use k8s_mcp.Base.{
  ℕ, zero, suc, ◌+◌, ◌-◌, ◌≤◌, max, String, ◌≡◌, refl, Option, none, some, List, [], ◌∷◌, All, map,
  arith,
}
use k8s_mcp.Base.Text.{empty, cons}
use k8s_mcp.Base.Text.Search.{count_chars}
use k8s_mcp.Base.Json.{Json, null, boolean, int, float, str, arr, obj, Fields, get}

-- `s * n` for a text of one character.
unfoldable pub repeat : Char → ℕ → String
repeat c zero = empty
repeat c (suc n) = cons c (repeat c n)

-- `s.ljust(w)`
unfoldable pub ljust : ℕ → String → String
ljust w s = s ++ repeat " " (w - count_chars s)

-- `"  ".join(cells)`
unfoldable pub join_cells : List String → String
join_cells [] = empty
join_cells (c ∷ []) = c
join_cells (c ∷ d ∷ cs) = c ++ ("  " ++ join_cells (d ∷ cs))

-- The greatest of some lengths and a first one.
unfoldable pub widest : ℕ → List ℕ → ℕ
widest w [] = w
widest w (n ∷ ns) = widest (max w n) ns

module _ (print dump : Json → String) where
  unfoldable pub display_value : Option Json → String
  display_value none = empty
  display_value (some null) = empty
  display_value (some (boolean b)) = print (boolean b)
  display_value (some (int negative n)) = print (int negative n)
  display_value (some (float text)) = print (float text)
  display_value (some (str s)) = print (str s)
  display_value (some (arr vs)) = dump (arr vs)
  display_value (some (obj fs)) = dump (obj fs)

  -- `row.get(c)` of the displayed rows.
  abbrev pub cell : Fields → String → String
  cell item c = display_value (get c item)

  -- `widths[c]`
  unfoldable pub width : List Fields → String → ℕ
  width items c = widest (count_chars c) (map (λ item. count_chars (cell item c)) items)

  abbrev pub row_line : List Fields → List String → Fields → String
  row_line items columns item = join_cells (map (λ c. ljust (width items c) (cell item c)) columns)

  abbrev pub header_line : List Fields → List String → String
  header_line items columns = join_cells (map (λ c. ljust (width items c) c) columns)

  abbrev pub separator_line : List Fields → List String → String
  separator_line items columns = join_cells (map (λ c. repeat "-" (width items c)) columns)

  -- The lines of the table.
  unfoldable pub short_table : List Fields → List String → List String
  short_table [] columns = "(empty)" ∷ []
  short_table (i ∷ is) columns =
      header_line (i ∷ is) columns
      ∷ separator_line (i ∷ is) columns
      ∷ map (row_line (i ∷ is) columns) (i ∷ is)

pub count_chars-append : (s t : String) → count_chars (s ++ t) ≡ count_chars s + count_chars t
unfolding count_chars
count_chars-append String.[] t = rw append.nil (omega arith)
count_chars-append (String.◌∷◌ c s) t = rw append.cons (omega (arith, count_chars-append s t))

count_chars-repeat : (c : Char) (n : ℕ) → count_chars (repeat c n) ≡ n
unfolding count_chars repeat
count_chars-repeat c zero = refl
count_chars-repeat c (suc n) = omega (arith, count_chars-repeat c n)

count_chars-ljust : (w : ℕ) (s : String) → count_chars s ≤ w → count_chars (ljust w s) ≡ w
unfolding ljust
count_chars-ljust w s h = omega (
  arith,
  count_chars-append s (repeat " " (w - count_chars s)),
  count_chars-repeat " " (w - count_chars s),
)

le-widest : (w : ℕ) (ns : List ℕ) → w ≤ widest w ns
unfolding widest
le-widest w [] = omega arith
le-widest w (n ∷ ns) = omega (arith, le-widest (max w n) ns)

widest-All : (w : ℕ) (ns : List ℕ) → All (λ n. n ≤ widest w ns) ns
unfolding widest
widest-All w [] = tt
widest-All w (n ∷ ns) = (omega (arith, le-widest (max w n) ns), widest-All (max w n) ns)

-- The width of a line whose cells have these widths.
pub line_width : List ℕ → ℕ
line_width [] = 0
line_width (w ∷ []) = w
line_width (w ∷ v ∷ ws) = w + 2 + line_width (v ∷ ws)

two_blanks : count_chars "  " ≡ 2
unfolding count_chars
two_blanks = refl

count_chars-join_cells :
    {A : Type 0} (text : A → String) (w : A → ℕ) (xs : List A)
    → All (λ (x : A). count_chars (text x) ≡ w x) xs
    → count_chars (join_cells (map text xs)) ≡ line_width (map w xs)
unfolding join_cells line_width
count_chars-join_cells text w [] h = unfold count_chars in refl
count_chars-join_cells text w (x ∷ []) h = h.0
count_chars-join_cells text w (x ∷ y ∷ xs) (this, rest) = omega (
  arith,
  count_chars-append (text x) ("  " ++ join_cells (map text (y ∷ xs))),
  count_chars-append "  " (join_cells (map text (y ∷ xs))),
  two_blanks,
  this,
  count_chars-join_cells text w (y ∷ xs) rest,
)

All-map :
    {A B : Type 0} (P : B → Type 0) (f : A → B) (xs : List A)
    → All P (map f xs)
    → All (λ (x : A). P (f x)) xs
All-map P f [] h = tt
All-map P f (x ∷ xs) (this, rest) = (this, All-map P f xs rest)

All-each : {A : Type 0} (P : A → Type 0) (xs : List A) → ((x : A) → P x) → All P xs
All-each P [] h = tt
All-each P (x ∷ xs) h = (h x, All-each P xs h)

module _ (print dump : Json → String) (items : List Fields) (columns : List String) where
  -- The width that every line has.
  abbrev pub Aligned : String → Type 0
  Aligned line = count_chars line ≡ line_width (map (width print dump items) columns)

  cells_fit :
      (c : String)
      → All
          (λ (item : Fields). count_chars (cell print dump item c) ≤ width print dump items c)
          items
  unfolding width
  cells_fit c =
      All-map (λ (n : ℕ). n ≤ width print dump items c)
        (λ item. count_chars (cell print dump item c)) items
        (widest-All (count_chars c) (map (λ item. count_chars (cell print dump item c)) items))

  header_fits : (c : String) → count_chars c ≤ width print dump items c
  unfolding width
  header_fits c =
      le-widest (count_chars c) (map (λ item. count_chars (cell print dump item c)) items)

  rows-Aligned :
      (some_items : List Fields)
      → ((c : String)
          → All
              (λ (item : Fields). count_chars (cell print dump item c) ≤ width print dump items c)
              some_items)
      → All Aligned (map (row_line print dump items columns) some_items)
  rows-Aligned [] fit = tt
  rows-Aligned (item ∷ rest) fit = (
    count_chars-join_cells (λ c. ljust (width print dump items c) (cell print dump item c))
        (width print dump items) columns
        (All-each _ columns
          (λ c. count_chars-ljust (width print dump items c) (cell print dump item c) (fit c).0)),
    rows-Aligned rest (λ c. (fit c).1),
  )

  header-Aligned : Aligned (header_line print dump items columns)
  header-Aligned =
      count_chars-join_cells (λ c. ljust (width print dump items c) c) (width print dump items)
        columns
        (All-each _ columns (λ c. count_chars-ljust (width print dump items c) c (header_fits c)))

  separator-Aligned : Aligned (separator_line print dump items columns)
  separator-Aligned =
      count_chars-join_cells (λ c. repeat "-" (width print dump items c)) (width print dump items)
        columns (All-each _ columns (λ c. count_chars-repeat "-" (width print dump items c)))

-- All lines of a table of at least one item have the same length, whatever the cells: the sum of the
-- columns' widths and two blanks between columns.
pub short_table-Aligned :
    (print dump : Json → String) (i : Fields) (is : List Fields) (columns : List String)
    → All (Aligned print dump (i ∷ is) columns) (short_table print dump (i ∷ is) columns)
unfolding short_table
short_table-Aligned print dump i is columns = (
  header-Aligned print dump (i ∷ is) columns,
  (
    separator-Aligned print dump (i ∷ is) columns,
    rows-Aligned print dump (i ∷ is) columns (i ∷ is) (cells_fit print dump (i ∷ is) columns),
  ),
)
