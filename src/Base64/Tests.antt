-- ===== src/Base64/Tests.antt =====
-- The base64 codecs of src/detail/base64.cc on concrete strings.
use protowire_cpp.Common.{◌≡◌, refl, arith, none, some, [], ◌∷◌}
use protowire_cpp.Common.Text.{codes}
use protowire_cpp.Base64.{
  alphabet, encode_std, decode_table, all_pad, push_sextet, decode_loop, decode_finish, decode_std,
}
use protowire_cpp.Base64.RoundTrip.{decode_std-encode_std}
use protowire_cpp.Base64.Go.{decode_proto, decode_lenient, bytes}
use protowire_cpp.Base64.Go.Variants.{decode_lenient-encode_std}

encode_std-ab : encode_std (codes "ab") ≡ codes "YWI="
unfolding encode_std alphabet
encode_std-ab = refl

-- Spare bits that are not zero, and a pad that is missing.
decode_std_refuses : (decode_std (codes "YWJ=") ≡ none) × (decode_std (codes "YWI=YQ") ≡ none)
unfolding decode_std decode_loop push_sextet decode_finish decode_table all_pad
decode_std_refuses = (refl, refl)

decode_std-encode_std_example :
    decode_std (encode_std (97 ∷ 98 ∷ 255 ∷ 0 ∷ [])) ≡ some (97 ∷ 98 ∷ 255 ∷ 0 ∷ [])
decode_std-encode_std_example =
    decode_std-encode_std (97 ∷ 98 ∷ 255 ∷ 0 ∷ [])
      (omega arith, (omega arith, (omega arith, (omega arith, tt))))

decode_lenient-encode_std_example :
    (decode_proto (encode_std (97 ∷ 98 ∷ [])) ≡ bytes (97 ∷ 98 ∷ []))
    × (decode_lenient (encode_std (97 ∷ 98 ∷ [])) ≡ bytes (97 ∷ 98 ∷ []))
decode_lenient-encode_std_example =
    decode_lenient-encode_std (97 ∷ 98 ∷ []) (omega arith, (omega arith, tt))
