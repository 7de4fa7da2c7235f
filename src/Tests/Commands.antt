-- ===== src/Tests/Commands.antt =====
-- A target as it is typed.
use dpwire.Prelude.{
  ◌≡◌, refl, ◌∷◌, ◌++◌, Bytes, codes, bytes_eq, has_prefix, has_suffix, trim_prefix, ok,
}
use dpwire.Unicode.{valid_string, contains_control}
use dpwire.Segments.{split, NoSlash}
use dpwire.RemotePath.{
  RemotePath, IsInTree, parse_remote_path, check_segments, starts_at_root, is_bad_segment,
}
use dpwire.Command.DevicePaths.{
  as_error, trim_root_relative_prefix, trim_slashes, first_segment, cut_last, below_root,
  parse_device_path, split_remote_target, split_remote_target-IsInTree,
}
use dpwire.Tests.Texts.{plain}

typed_target :
    split_remote_target plain bytes_eq (codes "/./notes/a.pdf/")
    ≡ ok (codes "Document/notes", codes "a.pdf")
unfolding split_remote_target parse_device_path below_root as_error trim_root_relative_prefix
    trim_slashes first_segment cut_last parse_remote_path check_segments starts_at_root
    is_bad_segment split valid_string contains_control bytes_eq has_prefix has_suffix trim_prefix
typed_target = refl

split_remote_target-IsInTree_example :
    (path : RemotePath) × ((before : Bytes) × ((parse_device_path plain bytes_eq
            (codes "/./notes/a.pdf/")
          ≡ ok path)
        × (IsInTree path
            × (IsInTree (codes "Document/notes")
                × ((codes "Document/notes" ≡ plain before)
                    × ((before ++ (47 ∷ codes "a.pdf") ≡ path) × NoSlash (codes "a.pdf")))))))
split_remote_target-IsInTree_example =
    split_remote_target-IsInTree plain bytes_eq (codes "/./notes/a.pdf/") (codes "Document/notes")
      (codes "a.pdf") typed_target
