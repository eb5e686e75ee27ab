-- ===== src/Json/Samples.antt =====
-- Values for tests: the arguments of the tools that name a program, a path or a patch.
use gocode.Base.{Option, none, some, List, [], ◌∷◌, String, str_eq, if◌then◌else◌, map}
use gocode.Json.{Json}

pub data Sample : Type 0 where
  empty : Sample
  text path_of patch_of : String → Sample
  words : List String → Sample
  command_of : String → List String → Sample

abbrev pub get_field : Sample → String → Option Sample
get_field (path_of path) key = if str_eq key "path" then some (text path) else none
get_field (patch_of patch) key = if str_eq key "patch" then some (text patch) else none
get_field (command_of program args) key =
    if str_eq key "program"
    then some (text program)
    else if str_eq key "args"
    then some (words args)
    else none
get_field _ key = none

abbrev pub text_of_sample : Sample → Option String
text_of_sample (text s) = some s
text_of_sample _ = none

abbrev pub items_of_sample : Sample → Option (List Sample)
items_of_sample (words ss) = some (map text ss)
items_of_sample _ = none

abbrev pub print_sample : Sample → String
print_sample (path_of path) = path
print_sample (patch_of patch) = patch
print_sample (command_of program args) = program
print_sample _ = "{}"

abbrev pub sample_json : Json Sample
sample_json = record {
  get = get_field;
  as_str = text_of_sample;
  as_array = items_of_sample;
  to_string = print_sample;
  from_str = λ s.
      if str_eq s "cargo test" then some (command_of "cargo" ("test" ∷ [])) else some (path_of s);
  empty_object = empty;
}
