-- ===== src/Tests/Parser.antt =====
-- Two statements, and a literal.
use mosito.Base.{
  ℕ, ◌≡◌, ◌≢◌, refl, none, some, List, [], ◌∷◌, ◌++◌, arith, if◌then◌else◌, ◌==◌, pos,
}
use mosito.Sql.NodeType.{NodeType}
use mosito.Sql.Nodes.{Node}
use mosito.Sql.Arena.{Arena, start, new_node}
use mosito.Sql.Select1.{new_table, new_from_list}
use mosito.Sql.Statements.{new_stmt, free_all_node}
use mosito.Sql.Statements.Release.{IsWf, Made, header, new_node-Made, header_leaks}
use mosito.Sql.Statements.Append.{IsList, new_stmt-IsList}
use mosito.Sql.Literal.{get_correct_string}
use mosito.Sql.Literal.Roundtrip.{escape_text, get_correct_string-escape_text}

start-IsWf : (n : ℕ) → IsWf (start n)
start-IsWf n = record { fresh = λ p h. refl; registered = tt; not_null = omega arith }

new_node-Made_example :
    (p : ℕ) × (s' : Arena) × (new_node header (start 1) ≡ some (p, s')) × Made (start 1) header p s'
new_node-Made_example = new_node-Made (start 1) 0 header (start-IsWf 1) refl

header_leaks_example :
    ((s' : Arena) × (new_table NodeType.t_table none none none (pos 0) 0 (start 2) ≡ some (1, s'))
      × ((free_all_node s').cell 1 ≡ none)
      × ((free_all_node s').cell 2 ≡ some header))
    × ((s' : Arena) × (new_from_list NodeType.t_table 0 0 (start 2) ≡ some (1, s'))
        × ((free_all_node s').cell 1 ≡ none)
        × ((free_all_node s').cell 2 ≡ some header))
header_leaks_example =
    header_leaks (start 2) 0 NodeType.t_table none none none (pos 0) 0 0 0 (start-IsWf 2) refl

-- After the first statement, whose content is at address 7.
abbrev first_stmt : Node
first_stmt = Node.stmt (record { type = NodeType.t_stmt; content = 7; next = 0; last = 1 })

abbrev after_first : Arena
after_first = record {
  cell = λ p. if p == 1 then some first_stmt else none;
  next = 2;
  space = 1;
  node_pointer = 1 ∷ [];
}

after_first-IsWf : IsWf after_first
after_first-IsWf = record {
  fresh = λ p h. ground arith;
  registered = (omega arith, tt);
  not_null = omega arith;
}

after_first-IsList : IsList after_first 1 7 []
after_first-IsList = record {
  head = record { type = NodeType.t_stmt; content = 7; next = 0; last = 1 };
  at_head = refl;
  chain =
      (record { type = NodeType.t_stmt; content = 7; next = 0; last = 1 }, refl, refl, refl, refl);
  not_null = omega arith;
  below = omega arith;
}

new_stmt-IsList_example :
    (s' : Arena) × (new_stmt NodeType.t_stmt 1 8 after_first ≡ some (1, s'))
    × IsList s' 1 7 ([] ++ 8 ∷ [])
    × (s'.node_pointer ≡ after_first.node_pointer)
    × ((free_all_node s').cell after_first.next ≢ none)
new_stmt-IsList_example =
    new_stmt-IsList after_first 0 1 7 8 [] NodeType.t_stmt after_first-IsWf after_first-IsList refl

-- The text `it's` with a line feed behind.
abbrev its_text : List ℕ
its_text = 105 ∷ 116 ∷ 39 ∷ 115 ∷ 10 ∷ []

get_correct_string-escape_text_example :
    get_correct_string (39 ∷ (escape_text its_text ++ 39 ∷ [])) ≡ its_text
get_correct_string-escape_text_example =
    get_correct_string-escape_text 39 39 its_text
      (omega arith, (omega arith, (omega arith, (omega arith, (omega arith, tt)))))
