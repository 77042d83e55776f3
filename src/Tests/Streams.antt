-- ===== src/Tests/Streams.antt =====
-- Streams and the messages composed with them at concrete inputs.
use cpp_network_obj.Base.{
  ◌≡◌, refl, false, none, some, List, [], ◌∷◌, ◌++◌, replicate, le_encode, arith,
}
use cpp_network_obj.Buffer.Framing.{IsFramed}
use cpp_network_obj.Stream.{CellStream, read_string}
use cpp_network_obj.Stream
use cpp_network_obj.Stream.Fields.{
  Field, scalar, array, Shape, a_scalar, an_array, FitAll, fit_none, fit_more, fits_scalar,
  fits_array, encode, encode_all, ReadBack, read_fields-write_fields,
}
use cpp_network_obj.Stream.Overread.{read_string_overread}
use cpp_network_obj.MsgStream.Finish.{compose, framed, compose_framed, parse, parse-framed}

abbrev fields : List Field
fields = scalar 2 300 ∷ array 1 (7 ∷ 8 ∷ []) ∷ []

abbrev shapes : List Shape
shapes = a_scalar 2 ∷ an_array 1 4 ∷ []

fields_fit : FitAll fields shapes
fields_fit = fit_more (fits_scalar 2 300 (omega arith)) (
    fit_more
      (fits_array 1 4 (7 ∷ 8 ∷ []) (omega arith, (omega arith, tt)) (omega arith) (omega arith))
      fit_none)

read_fields-write_fields_example : ReadBack fields shapes (Stream.create 16 (replicate 16 0))
unfolding Stream.create encode encode_all le_encode Stream.encode_array
read_fields-write_fields_example =
    read_fields-write_fields (Stream.create 16 (replicate 16 0)) (omega arith) (omega arith)
      (omega arith) fields_fit

compose_framed_example :
    (compose 16 (replicate 16 0) 13 fields ≡ some (framed 13 fields)) × IsFramed (framed 13 fields)
unfolding encode encode_all le_encode Stream.encode_array
compose_framed_example =
    compose_framed 16 (replicate 16 0) 13 fields refl (omega arith) (omega arith) (omega arith)

parse-framed_example : parse (framed 13 fields ++ 4 ∷ []) shapes ≡ some (12, 13, fields)
unfolding encode encode_all le_encode Stream.encode_array
parse-framed_example = parse-framed 13 (4 ∷ []) fields_fit (omega arith) (omega arith)

abbrev forged : CellStream
forged = record {
  mem = le_encode 4 4294967280;
  size = 4;
  write_pos = 0;
  read_pos = 0;
  owned = false;
}

read_string_overread_example : read_string [] forged ≡ none
unfolding le_encode
read_string_overread_example =
    read_string_overread 4294967280 [] {s = forged} {rest = []} (omega arith) (omega arith)
      (omega arith) (record { block = omega arith; inside = omega arith; next = refl })
