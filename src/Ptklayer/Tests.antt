-- ===== src/Ptklayer/Tests.antt =====
-- Runs of the functions of src/c/ptklayer.c, and the theorems at concrete inputs.
use aviutl_psdtoolkit.Base.{
  ℕ, zero, suc, Bool, true, ◌||◌, ◌==◌, List, [], ◌∷◌, ◌++◌, Option, none, some, get_elem?, Chars,
  codes, ◌>>=◌, ok, Meets, NoError, HasNoNul, replace_char, pure, pure-Meets, inl, ◌↔◌, subst, ◌<◌,
  ◌≡◌, refl, arith,
}
use aviutl_psdtoolkit.Plain.{plain, plain-laws}
use aviutl_psdtoolkit.Buffer.{put, grow}
use aviutl_psdtoolkit.Ptklayer.Types.{
  Item, Ptklayer, empty_layer, Convert, ConvertLaws, wcsrchr, later, wcschr, sooner,
}
use aviutl_psdtoolkit.Ptklayer.Parse.{ptklayer_parse}
use aviutl_psdtoolkit.Ptklayer.Names.{
  hex2int, percent_loop, extract_layer_name, behind_last, percent_decode, layer_name_to_readable,
  parent_layer_name_to_readable,
}
use aviutl_psdtoolkit.Ptklayer.Percent.{percent_encoded, percent_decode-encoded}
use aviutl_psdtoolkit.Ptklayer.Readable.{parent_layer_name_to_readable-encoded}
use aviutl_psdtoolkit.Ptklayer.Siblings.{enumerate_siblings}
use aviutl_psdtoolkit.Ptklayer.Paths.{Siblings}
use aviutl_psdtoolkit.Ptklayer.Group.{Ascending, In, enumerate_siblings-layer}
use aviutl_psdtoolkit.Ptklayer.Items.{items_of, join, ptklayer_parse-join}
use aviutl_psdtoolkit.Ptklayer.Export.{encode_csv, build_siblings_script}
use aviutl_psdtoolkit.Ptklayer.Csv.{read_field, ends_field, encode_csv-read}
use aviutl_psdtoolkit.Ptklayer.Script.{script_text, build_siblings_script-slider}

abbrev esc : ℕ → Bool
esc c = c == b'%' || c == b'/'

small : (c : ℕ) → esc c ≡ true → c < 256
small c h = ground arith

abbrev ascii : Convert (Unit {0})
ascii = record { from_utf8 = pure }

ascii-laws : ConvertLaws ascii (λ s. s) NoError
ascii-laws = record { from_utf8_lem = λ s. pure-Meets s refl }

run_decode : percent_decode plain (codes "a%2fb%zz%") tt ≡ (ok (codes "a/b%zz%"), tt)
unfolding percent_decode percent_loop hex2int put grow ◌>>=◌
run_decode = refl

run_parent :
    parent_layer_name_to_readable plain (codes "v1.face%2f/eye/open") tt ≡ (ok (codes "eye"), tt)
unfolding parent_layer_name_to_readable ◌>>=◌ layer_name_to_readable percent_decode grow
    percent_loop hex2int behind_last wcsrchr later extract_layer_name put
run_parent = refl

abbrev face : Item
face = record { name = codes "body/face"; value = codes "L.1" }

abbrev hair : Item
hair = record { name = codes "body/hair"; value = codes "L.2" }

abbrev back : Item
back = record { name = codes "back"; value = codes "L.3" }

abbrev layers : Ptklayer
layers = record { items = face ∷ back ∷ hair ∷ []; slider_name = none; file_path = none }

abbrev faview : Ptklayer
faview = record {
  items = face ∷ back ∷ [];
  slider_name = some (codes "root\\eyes");
  file_path = none;
}

percent_decode-encoded_example :
    Meets NoError (λ d. d ≡ codes "50%") (percent_decode plain (percent_encoded esc (codes "50%")))
percent_decode-encoded_example =
    percent_decode-encoded esc refl small plain plain-laws (codes "50%") (omega arith)

parent_layer_name_to_readable-encoded_example :
    Meets NoError
      (λ d. d ≡ codes "a/b")
      (parent_layer_name_to_readable plain
        ((codes "body" ++ (b'/' ∷ percent_encoded esc (codes "a/b"))) ++ (b'/' ∷ codes "eye")))
parent_layer_name_to_readable-encoded_example =
    parent_layer_name_to_readable-encoded esc refl refl small plain plain-laws (codes "body")
      (codes "a/b") (codes "eye") (omega arith) (omega arith)
      ((omega arith, omega arith), ((omega arith, omega arith), ((omega arith, omega arith), tt)))

abbrev Clean : Option Item → Type 0
Clean none = Unit
Clean (some x) = HasNoNul x.name

clean_like : (x other : Item) → some x ≡ some other → HasNoNul x.name → HasNoNul other.name
clean_like x other h k = subst (λ (o : Option Item). Clean o) h k

clean_items : (j : ℕ) (other : Item) → get_elem? layers.items j ≡ some other → HasNoNul other.name
clean_items zero other h = clean_like face other h (omega arith)
clean_items (suc zero) other h = clean_like back other h (omega arith)
clean_items (suc (suc zero)) other h = clean_like hair other h (omega arith)
clean_items (suc (suc (suc j))) other h = cc

enumerate_siblings-layer_example :
    Meets NoError
      (λ r.
        Ascending 0 r
        × ((j : ℕ)
            → In j r ↔ (
                (other : Item) × (get_elem? layers.items j ≡ some other)
                × Siblings face.name other.name)))
      (enumerate_siblings plain layers 0)
enumerate_siblings-layer_example =
    enumerate_siblings-layer plain plain-laws layers 0 face refl refl clean_items

abbrev names : List Chars
names = codes "eye" ∷ codes "ear" ∷ []

abbrev values : List Chars
values = codes "L.1" ∷ codes "L.2" ∷ []

ptklayer_parse-join_example :
    Meets NoError
      (λ r. r ≡ record {
        items = items_of (λ s. s) names values;
        slider_name = none;
        file_path = some (codes "a.psd");
      })
      (ptklayer_parse plain ascii
        (some (join names))
        (some (join values))
        none
        (codes "a.psd")
        (some empty_layer))
ptklayer_parse-join_example =
    ptklayer_parse-join plain plain-laws ascii (λ s. s) ascii-laws names values none (codes "a.psd")
      (λ e. cc, omega arith, (λ e. cc, omega arith, tt))
      (λ e. cc, omega arith, (λ e. cc, omega arith, tt))

encode_csv-read_example :
    Meets NoError
      (λ r. read_field (r ++ codes ",x") ≡ (codes "a,\"b", codes ",x"))
      (encode_csv plain (codes "a,\"b"))
unfolding ends_field wcschr sooner
encode_csv-read_example =
    encode_csv-read plain plain-laws (codes "a,\"b") (codes ",x") (omega arith) (inl (λ e. cc)) refl

abbrev ov_utoa : ℕ → Chars
ov_utoa n = codes "2"

build_siblings_script-slider_example :
    Meets NoError
      (λ r.
        r
        ≡ script_text ov_utoa
            (replace_char b','
              (codes "_")
              (behind_last (wcsrchr (codes "root\\eyes") b'\\') (codes "root\\eyes")))
            faview.items)
      (build_siblings_script plain ov_utoa faview 0)
build_siblings_script-slider_example =
    build_siblings_script-slider plain plain-laws ov_utoa faview 0 face (codes "root\\eyes") refl
      refl (omega arith) (omega arith) (λ n. omega arith)
