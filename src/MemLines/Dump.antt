-- ===== src/MemLines/Dump.antt =====
-- srcs/mem_lines.cpp, lines 300-340: `dump_busy_paths`. The JSON library, the formatting of a number
-- in base 16 and the output file are parameters.
pub mod Content
pub mod Written
use Prim.Native.String.{String}
use core_map.Base.{ℕ, ℤ, pos, List, [], ◌∷◌}
use core_map.Base.Effect.{
  RingChannel, ch_up, ch_down, ch_left, ch_right, M, ◌>>=◌, ◌>>◌, pure, tell,
}
use core_map.Pmon.{Pmon}
use core_map.MemLines.Object.{MemLines, Node}

-- nlohmann::json, as far as the program uses it. A field that is not there is read as `null`.
pub record Json (J : Type 0) : Type 0 where
  pub null : J
  pub array : J
  pub text : String → J
  pub int : ℤ → J
  pub field : String → J → J
  pub with_field : String → J → J → J
  pub push_back : J → J → J

pub record Output (W J : Type 0) : Type 0 where
  pub show_hex : ℕ → String
  pub write_file : String → J → W → W

-- The value of the enumerator.
abbrev channel_number : RingChannel → ℕ
channel_number ch_up = 0
channel_number ch_down = 1
channel_number ch_left = 2
channel_number ch_right = 3

module _ {J : Type 0} (j : Json J) where
  open j use {null, array, text, int, field, with_field, push_back}

  -- { {"node_id", node_id}, {"channel", channel} }
  pub node_json : Node → J
  node_json (node_id, channel) =
      with_field "channel" (int (pos (channel_number channel)))
        (with_field "node_id" (int (pos node_id)) null)

  -- jp["path"].push_back(...), for each node.
  push_nodes : List Node → J → J
  push_nodes [] jp = jp
  push_nodes (node ∷ path) jp =
      push_nodes path (with_field "path" (push_back (field "path" jp) (node_json node)) jp)

  pub path_json : (ℕ × ℕ) × List Node → J
  path_json ((id_a, id_b), path) =
      push_nodes path (with_field "id_B" (int (pos id_b)) (with_field "id_A" (int (pos id_a)) null))

  -- doc[key].push_back(x), for each x.
  push_all : String → List J → J → J
  push_all key [] doc = doc
  push_all key (x ∷ xs) doc = push_all key xs (with_field key (push_back (field key doc) x) doc)

  pub ints : List ℤ → List J
  ints [] = []
  ints (x ∷ xs) = int x ∷ ints xs

  pub paths : List ((ℕ × ℕ) × List Node) → List J
  paths [] = []
  paths (e ∷ es) = path_json e ∷ paths es

  -- The document that is written.
  pub document : String → MemLines → J
  document ppin_str ml =
      let a = with_field "ppin" (text ppin_str) null in
      let b = push_all "CHA_to_os" (ints ml.core_map_cha_to_os) (with_field "CHA_to_os" array a) in
      push_all "busy_paths" (paths ml.busy_paths) (with_field "busy_paths" array b)

module _ {W J : Type 0} (j : Json J) (o : Output W J) where
  pub dump_busy_paths : Pmon → MemLines → String → M W ℤ
  dump_busy_paths p ml filename = do
    tell (o.write_file filename (document j (o.show_hex p.ppin) ml))
    pure (pos 0)
