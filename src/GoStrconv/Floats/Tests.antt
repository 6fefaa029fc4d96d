-- ===== src/GoStrconv/Floats/Tests.antt =====
-- GoParseFloat of src/detail/go_strconv.cc on concrete strings, where a conversion keeps its text.
use protowire_cpp.Common.{◌≡◌, refl, none, List, ℕ, if◌then◌else◌, []}
use protowire_cpp.Common.Text.{codes, same_text}
use protowire_cpp.GoStrconv.{Parsed, number, refused, num_error, syntax_error, range_error}
use protowire_cpp.GoStrconv.Messages.{underscore_ok, underscore_loop}
use protowire_cpp.GoStrconv.Floats.{
  common_prefix, mantissa_loop, exponent_loop, exponent_part, well_formed, plain, special,
  go_parse_float,
}

abbrev read_text : List ℕ → Parsed (List ℕ)
read_text s =
    go_parse_float (λ t. t) (λ t. t) (λ t. same_text t (codes "1e999"))
      (λ negative. if negative then codes "-Inf" else codes "Inf") (codes "NaN") [] s 64

samples :
    (read_text (codes "1_0.5e+3") ≡ number (codes "10.5e+3"))
    × (read_text (codes "-infinity") ≡ number (codes "-Inf"))
    × (read_text (codes "nan") ≡ number (codes "NaN"))
    × (read_text (codes "0x1p4") ≡ number (codes "0x1p4"))
    × (read_text (codes "1e")
        ≡ refused none (num_error [] (codes "ParseFloat") (codes "1e") syntax_error))
    × (read_text (codes "1e999")
        ≡ refused none (num_error [] (codes "ParseFloat") (codes "1e999") range_error))
unfolding common_prefix mantissa_loop exponent_loop exponent_part well_formed plain special
    go_parse_float underscore_ok underscore_loop same_text
samples = (refl, refl, refl, refl, refl, refl)
