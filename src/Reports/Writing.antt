-- ===== src/Reports/Writing.antt =====
-- What src/io/json/Report.cpp, src/io/yaml/Report.cpp and src/io/IO.cpp leave in the files.
pub mod Sequence
use recipes_core.Prelude.{
  Text, ◌⊎◌, inl, inr, Bool-cases, ◌≡◌, refl, sym, ◌∙◌, ap, Bool, true, false, Option, none, some,
  [], if_cases, if◌then◌else◌,
}
use recipes_core.Service.{is_empty}
use recipes_core.Reports.Views.Yaml.{build_product_views-agrees, build_recipe_views-agrees}
use recipes_core.Reports.Views.{build_product_views, build_recipe_views}
use recipes_core.Reports.Files.{
  ErrorCode, invalid_argument, no_such_file_or_directory, io_error, FileSystem, Rendered, Writer,
  Items, of_products, of_recipes, make_parent, after_put, leaving, after_open, after_parent,
  write_products_json, write_recipes_json, write_items_json, write_products_yaml,
  write_recipes_yaml, write_items_yaml, write_json_payload, write_yaml_payload,
}

-- What Glaze makes of the views of the items.
unfoldable pub render : Writer → Items → Rendered
unfolding build_product_views build_recipe_views
render writer (of_products products) = writer.products (build_product_views products)
render writer (of_recipes recipes) = writer.recipes (build_recipe_views recipes)

-- What is seen of a file: its contents, and whether the last flush of its last stream failed.
abbrev pub Seen : Type 0
Seen = Option Text × Bool

-- What the reports rely on: directories change no file, a file that was opened is empty, and bytes
-- that were put without a failure are in it once the stream is closed, unless its last flush failed.
-- `aliases p q` is false where p and q name different files.
pub record IsLawful {S : Type 0} (files : FileSystem S) (contents : Text → S → Seen)
    (aliases : Text → Text → Bool) : Type 0 where
  pub directories :
      (p q : Text) (s : S) → contents q (files.create_directories p s).1 ≡ contents q s
  pub opened :
      (p : Text) (s s' : S)
      → files.open_truncated p s ≡ (true, s')
      → contents p s' ≡ (some [], false)
  pub open_frame :
      (p q : Text) (s : S)
      → aliases p q ≡ false
      → contents q (files.open_truncated p s).1 ≡ contents q s
  pub flushed :
      (p bytes : Text) (s s' : S)
      → contents p s ≡ (some [], false)
      → files.put p bytes s ≡ (false, s')
      → (contents p (files.close p s')).1 ≡ false
      → (contents p (files.close p s')).0 ≡ some bytes
  pub put_frame :
      (p q bytes : Text) (s : S)
      → aliases p q ≡ false
      → contents q (files.put p bytes s).1 ≡ contents q s
  pub close_frame :
      (p q : Text) (s : S) → aliases p q ≡ false → contents q (files.close p s) ≡ contents q s

-- The file holds the bytes, unless the last flush failed.
abbrev pub Holds : Seen → Text → Type 0
Holds seen bytes = (seen.0 ≡ some bytes) ⊎ (seen.1 ≡ true)

-- Why writing a file ends with an error code: the caller's path, Glaze, or the file system.
pub data Cause {S : Type 0} (files : FileSystem S) (path : Text) (rendered : Rendered)
    : ErrorCode → Type 0 where
  no_path : is_empty path ≡ true → Cause files path rendered invalid_argument
  not_rendered : rendered.failed ≡ true → Cause files path rendered invalid_argument
  no_directory :
      (s s' : S) (e : ErrorCode)
      → files.create_directories (files.parent_path path) s ≡ (some e, s')
      → Cause files path rendered e
  not_opened :
      (s s' : S)
      → files.open_truncated path s ≡ (false, s')
      → Cause files path rendered no_such_file_or_directory
  not_put :
      (s s' : S) → files.put path rendered.bytes s ≡ (true, s') → Cause files path rendered io_error

module _ {S : Type 0} {files : FileSystem S} {contents : Text → S → Seen}
    {aliases : Text → Text → Bool} (lawful : IsLawful files contents aliases) where
  -- Only files that the path may name differ.
  abbrev pub Frame : Text → S → S → Type 0
  Frame path s s' = (q : Text) → aliases path q ≡ false → contents q s' ≡ contents q s

  abbrev pub Written : Text → Rendered → S → Option ErrorCode × S → Type 0
  Written path rendered s (none, s') =
      Holds (contents path s') rendered.bytes × (rendered.failed ≡ false) × Frame path s s'
  Written path rendered s (some e, s') = Cause files path rendered e × Frame path s s'

  put_Written :
      (path : Text) (rendered : Rendered) (s0 s : S)
      → contents path s ≡ (some [], false)
      → Frame path s0 s
      → (r : Bool × S) → files.put path rendered.bytes s ≡ r
      → Written path rendered s0 (leaving files path (after_put files rendered r))
  put_Written path rendered s0 s empty framed (fail, s') e =
      if_cases (λ r. Written path rendered s0 (leaving files path r)) rendered.failed _ _
        (λ failed. (Cause.not_rendered failed, frame)) λ ok. by_stream fail e ok
    where
      frame : Frame path s0 (files.close path s')
      frame q h =
          lawful.close_frame path q s' h
          ∙ ap (λ r. contents q r.1) (sym e)
          ∙ lawful.put_frame path q _ s h
          ∙ framed q h

      by_stream :
          (fail : Bool)
          → files.put path rendered.bytes s ≡ (fail, s')
          → rendered.failed ≡ false
          → Written path rendered s0
              (leaving files path (if fail then (some io_error, s') else (none, s')))
      by_stream true e ok = (Cause.not_put s s' e, frame)
      by_stream false e ok = (
        elim (Bool-cases (contents path (files.close path s')).1) [
          | inl lost ↦ inr lost
          | inr kept ↦ inl (lawful.flushed path rendered.bytes s s' empty e kept)
        ],
        ok,
        frame,
      )

  open_Written :
      (path : Text) (rendered : Rendered) (s0 s : S)
      → Frame path s0 s
      → (r : Bool × S) → files.open_truncated path s ≡ r
      → Written path rendered s0 (after_open files rendered path r)
  open_Written path rendered s0 s framed (opened, s') e = by_open opened e
    where
      frame : Frame path s0 s'
      frame q h = ap (λ r. contents q r.1) (sym e) ∙ lawful.open_frame path q s h ∙ framed q h

      by_open :
          (opened : Bool)
          → files.open_truncated path s ≡ (opened, s')
          → Written path rendered s0 (after_open files rendered path (opened, s'))
      by_open false e = (Cause.not_opened s s' e, frame)
      by_open true e = put_Written path rendered s0 s' (lawful.opened path s s' e) frame _ refl

  parent_Written :
      (path : Text) (rendered : Rendered) (s : S)
      → Written path rendered s (after_parent files rendered path (make_parent files path s))
  parent_Written path rendered s =
      if_cases (λ r. Written path rendered s (after_parent files rendered path r))
        (is_empty (files.parent_path path)) _ _
        (λ _. open_Written path rendered s s (λ q h. refl) _ refl) λ _. by_directories _ refl
    where
      by_directories :
          (r : Option ErrorCode × S)
          → files.create_directories (files.parent_path path) s ≡ r
          → Written path rendered s (after_parent files rendered path r)
      by_directories (some ec, s') e = (
        Cause.no_directory s s' ec e,
        λ q h. ap (λ r. contents q r.1) (sym e) ∙ lawful.directories _ q s,
      )
      by_directories (none, s') e =
          open_Written path rendered s s'
            (λ q h. ap (λ r. contents q r.1) (sym e) ∙ lawful.directories _ q s) _ refl

  -- A path that is tested before anything is written.
  tested_Written :
      (path : Text) (rendered : Rendered) (s : S)
      → Written path rendered s (
          if is_empty path
          then (some invalid_argument, s)
          else after_parent files rendered path (make_parent files path s))
  tested_Written path rendered s =
      if_cases (Written path rendered s) (is_empty path) _ _
        (λ empty. (Cause.no_path empty, λ q h. refl)) λ _. parent_Written path rendered s

  pub write_items_json-Written :
      (writer : Writer) (items : Items) (path : Text) (s : S)
      → Written path (render writer items) s (write_items_json files writer items path s)
  unfolding write_items_json write_products_json write_recipes_json render write_json_payload
  write_items_json-Written writer (of_products products) path s =
      tested_Written path (render writer (of_products products)) s
  write_items_json-Written writer (of_recipes recipes) path s =
      tested_Written path (render writer (of_recipes recipes)) s

  pub write_items_yaml-Written :
      (writer : Writer) (items : Items) (path : Text) (s : S)
      → Written path (render writer items) s (write_items_yaml files writer items path s)
  unfolding write_items_yaml write_products_yaml write_recipes_yaml render write_yaml_payload
  write_items_yaml-Written writer (of_products products) path s =
      rw (build_product_views-agrees products)
        (tested_Written path (writer.products (build_product_views products)) s)
  write_items_yaml-Written writer (of_recipes recipes) path s =
      rw (build_recipe_views-agrees recipes)
        (tested_Written path (writer.recipes (build_recipe_views recipes)) s)
