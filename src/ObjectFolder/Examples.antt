-- ===== src/ObjectFolder/Examples.antt =====
-- Names of object folders.
use wedding_cake_cpp.Base.{◌≡◌, refl, ok, err, runtime_error, arith}
use wedding_cake_cpp.ObjectFolder.RoundTrip.{object_folder_single_offset-name}
use wedding_cake_cpp.ObjectFolder.{
  codes, stoi_whole, object_folder_name, object_folder_single_offset,
}

name_of_65535 : object_folder_name 65535 ≡ codes "Offset_65535"
unfolding object_folder_name
name_of_65535 = refl

offset_of_131070 : object_folder_single_offset (codes "Offset_131070") ≡ ok 131070
unfolding object_folder_single_offset stoi_whole
offset_of_131070 = refl

-- The name of an offset that does not fit an int is refused.
offset_of_2147549183 :
    object_folder_single_offset (object_folder_name 2147549183) ≡ err runtime_error
unfolding object_folder_single_offset stoi_whole object_folder_name
offset_of_2147549183 = refl

object_folder_single_offset-name_example :
    object_folder_single_offset (object_folder_name 65535) ≡ ok 65535
object_folder_single_offset-name_example = object_folder_single_offset-name 65535 (omega arith)
