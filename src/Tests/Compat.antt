-- ===== src/Tests/Compat.antt =====
-- Witnesses on the items of the cJSON interface.
use s_json.Base.{◌≡◌, refl, [], ◌∷◌, ◌++◌, true, Option, none, some, codes, length, arith}
use s_json.Base.Int.{pos}
use s_json.Value.{JsonValue, boolean, integer, array, Items, no_items, item}
use s_json.Writer.{tmp_digits, reverse_onto}
use s_json.Writer.Decimal.{decimal}
use s_json.Writer.Calls.{k_default_opts}
use s_json.Writer.Render.{render, render_items}
use s_json.Compat.{CJson, Heap, cjson_parse_with_length, cjson_delete}
use s_json.Compat.Calls.{cjson_get_array_item, cjson_print, cjson_print_unformatted, pretty_opts}
use s_json.Compat.Owned.{
  Counts, Deletes, Reach, parsed, array_item, Reach-Counts, cjson_delete-Deletes,
}
use s_json.Compat.Prints.{cjson_print-render, cjson_print_unformatted-render}
use s_json.Tests.Data.{blank_fpu, libc}

abbrev heap_of : Option (Option Heap) → Heap
heap_of (some (some h)) = h
heap_of _ = record { owner = none; items = [] }

-- After the text `[true]` is parsed.
abbrev root_heap : Heap
root_heap = heap_of (cjson_parse_with_length blank_fpu libc (true, true) (some (codes "[true]")) 6)

root_is_there :
    cjson_parse_with_length blank_fpu libc (true, true) (some (codes "[true]")) 6
    ≡ some (some root_heap)
unfolding cjson_parse_with_length s_json.Parser.Run.json_parse s_json.Arena.json_arena_create
    s_json.Parser.Round.step s_json.Arena.arena_alloc s_json.Arena.new_node s_json.Value.count_items
    s_json.Value.arr_grow s_json.Value.append_item s_json.Parser.deliver s_json.Arena.block_request
root_is_there = refl

root_reached : Reach blank_fpu libc root_heap
root_reached = parsed (true, true) (some (codes "[true]")) 6 root_is_there

-- After the first item of the root is taken as well.
abbrev heap_after : Option (Option CJson × Heap) → Heap
heap_after (some (r, h)) = h
heap_after none = root_heap

abbrev item_after : Option (Option CJson × Heap) → Option CJson
item_after (some (r, h)) = r
item_after none = none

abbrev child_heap : Heap
child_heap = heap_after (cjson_get_array_item blank_fpu true root_heap (some 0) (pos 0))

child_is_there :
    cjson_get_array_item blank_fpu true root_heap (some 0) (pos 0)
    ≡ some (item_after (cjson_get_array_item blank_fpu true root_heap (some 0) (pos 0)), child_heap)
unfolding cjson_get_array_item cjson_parse_with_length s_json.Arena.block_request
    s_json.Parser.Round.step s_json.Arena.new_node s_json.Arena.arena_alloc s_json.Value.count_items
    s_json.Value.arr_grow s_json.Value.append_item
child_is_there = refl

child_reached : Reach blank_fpu libc child_heap
child_reached = array_item root_reached true (some 0) (pos 0) child_is_there

Reach-Counts_example : Counts child_heap.owner (length child_heap.items)
Reach-Counts_example = Reach-Counts blank_fpu libc child_heap child_reached

two_items : length child_heap.items ≡ 2
unfolding cjson_get_array_item cjson_parse_with_length s_json.Arena.block_request
    s_json.Parser.Round.step s_json.Arena.new_node s_json.Arena.arena_alloc s_json.Value.count_items
    s_json.Value.arr_grow s_json.Value.append_item
two_items = refl

cjson_delete-Deletes_example : Deletes child_heap (cjson_delete child_heap (some 0))
cjson_delete-Deletes_example =
    cjson_delete-Deletes blank_fpu libc child_heap 0 child_reached (omega (arith, two_items))

-- [1]
abbrev one_item : JsonValue
one_item = array (item (integer (pos 1)) no_items) 8

abbrev demo_item : CJson
demo_item = record {
  value = some one_item;
  owns_arena = true;
  kind = 5;
  valueint = pos 0;
  valuedouble = 0;
  valuestring = none;
}

pretty_text : render blank_fpu pretty_opts one_item 0 ≡ some (codes "[\n  1\n]")
unfolding render render_items decimal tmp_digits reverse_onto
pretty_text = refl

plain_text : render blank_fpu k_default_opts one_item 0 ≡ some (codes "[1]")
unfolding render render_items decimal tmp_digits reverse_onto
plain_text = refl

cjson_print-render_example :
    cjson_print blank_fpu libc true (some demo_item) ≡ some (codes "[\n  1\n]" ++ (0 ∷ []))
cjson_print-render_example =
    cjson_print-render blank_fpu libc one_item (codes "[\n  1\n]") demo_item refl pretty_text
      (omega arith)

cjson_print_unformatted-render_example :
    cjson_print_unformatted blank_fpu libc true (some demo_item) ≡ some (codes "[1]" ++ (0 ∷ []))
cjson_print_unformatted-render_example =
    cjson_print_unformatted-render blank_fpu libc one_item (codes "[1]") demo_item refl plain_text
      (omega arith)
