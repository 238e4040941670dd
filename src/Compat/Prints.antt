-- ===== src/Compat/Prints.antt =====
-- cJSON_Print and cJSON_PrintUnformatted against the text that Writer/Render describes.
use s_json.Base.{
  ◌+◌, ◌<◌, ◌≡◌, refl, ap, ◌∙◌, subst, true, false, [], ◌∷◌, ◌++◌, Bytes, ◌==◌, Option, none, some,
  length, size_max, arith, append-nil,
}
use s_json.Arena.{JsonAllocator}
use s_json.Number.{Fpu}
use s_json.Value.{JsonValue}
use s_json.Writer.Value.{JsonWriteOpts}
use s_json.Writer.Calls.{k_default_opts, json_measure, json_write}
use s_json.Writer.Render.{render}
use s_json.Writer.Refines.{document, json_write-render, json_measure-render}
use s_json.Compat.{CJson}
use s_json.Compat.Calls.{print_with, pretty_opts, cjson_print, cjson_print_unformatted}

module _ (fpu : Fpu) (libc : JsonAllocator) (v : JsonValue) (text : Bytes) where
  print_with-render :
      (opts : JsonWriteOpts)
      → opts.sort_keys ≡ false
      → render fpu opts v 0 ≡ some text
      → length (document opts text) < size_max
      → print_with fpu libc true (some v) (some opts) ≡ some (document opts text ++ (0 ∷ []))
  unfolding print_with
  print_with-render opts unsorted described small =
      let size = length (document opts text) in
      let bounded : (size == size_max) ≡ false = ground arith in
      let measured = json_measure-render fpu libc v opts text unsorted described small in
      let filled =
        json_write-render fpu libc v opts text unsorted described (size + 1) (omega arith)
          (omega arith) in
      rw (measured, bounded, filled) refl

  print_default :
      print_with fpu libc true (some v) none
      ≡ print_with fpu libc true (some v) (some k_default_opts)
  unfolding print_with json_measure json_write
  print_default = refl

  -- cJSON_Print of an item whose value has a text in the pretty layout gives that text with a NUL, if malloc
  -- grants the buffer and a size_t can hold the length.
  pub cjson_print-render :
      (item : CJson)
      → item.value ≡ some v
      → render fpu pretty_opts v 0 ≡ some text
      → length text < size_max
      → cjson_print fpu libc true (some item) ≡ some (text ++ (0 ∷ []))
  unfolding cjson_print
  cjson_print-render item here described small =
      ap (λ (x : Option JsonValue). print_with fpu libc true x (some pretty_opts)) here
      ∙ subst
          (λ (t : Bytes).
            length t < size_max
            → print_with fpu libc true (some v) (some pretty_opts) ≡ some (t ++ (0 ∷ [])))
          (append-nil text) (print_with-render pretty_opts refl described) small

  -- cJSON_PrintUnformatted of an item whose value has a text in the default layout gives that text with a NUL,
  -- if malloc grants the buffer and a size_t can hold the length.
  pub cjson_print_unformatted-render :
      (item : CJson)
      → item.value ≡ some v
      → render fpu k_default_opts v 0 ≡ some text
      → length text < size_max
      → cjson_print_unformatted fpu libc true (some item) ≡ some (text ++ (0 ∷ []))
  unfolding cjson_print_unformatted
  cjson_print_unformatted-render item here described small =
      ap (λ (x : Option JsonValue). print_with fpu libc true x none) here
      ∙ print_default
      ∙ subst
          (λ (t : Bytes).
            length t < size_max
            → print_with fpu libc true (some v) (some k_default_opts) ≡ some (t ++ (0 ∷ [])))
          (append-nil text) (print_with-render k_default_opts refl described) small
