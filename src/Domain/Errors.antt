-- ===== src/Domain/Errors.antt =====
-- internal/domain/errors.go. An error is a tree: a sentinel, an error from elsewhere, or a wrapping
-- by fmt.Errorf, whose `%w` operands `errors.Is` descends into and whose `%v` operands it does not.
use goprofile.Prelude.{Bool, true, false, ◌||◌, Bytes, ℕ, if◌then◌else◌}

pub data Sentinel : Type 0 where
  avatar_not_found forbidden invalid_user_id file_required file_too_large : Sentinel
  invalid_file_format invalid_image already_processed already_deleted : Sentinel
  invalid_size_param invalid_format_param permanent_failure image_too_large : Sentinel

pub data Err : Type 0 where
  -- one of the variables of errors.go
  sentinel : Sentinel → Err
  -- an error of a library or of the environment, told apart by a number
  external : ℕ → Err
  -- fmt.Errorf("message"), with no operand that is an error
  message : Bytes → Err
  -- fmt.Errorf("message: %w", err)
  wrapped : Bytes → Err → Err
  -- fmt.Errorf("%w: %w", err1, err2)
  joined : Err → Err → Err

abbrev pub same_sentinel : Sentinel → Sentinel → Bool
same_sentinel avatar_not_found avatar_not_found = true
same_sentinel forbidden forbidden = true
same_sentinel invalid_user_id invalid_user_id = true
same_sentinel file_required file_required = true
same_sentinel file_too_large file_too_large = true
same_sentinel invalid_file_format invalid_file_format = true
same_sentinel invalid_image invalid_image = true
same_sentinel already_processed already_processed = true
same_sentinel already_deleted already_deleted = true
same_sentinel invalid_size_param invalid_size_param = true
same_sentinel invalid_format_param invalid_format_param = true
same_sentinel permanent_failure permanent_failure = true
same_sentinel image_too_large image_too_large = true
same_sentinel _ _ = false

-- errors.Is with a sentinel for its target
unfoldable pub is : Err → Sentinel → Bool
is (sentinel s) t = same_sentinel s t
is (external _) t = false
is (message _) t = false
is (wrapped _ e) t = is e t
is (joined a b) t = is a t || is b t

-- `Permanent` at an error that is not nil
unfoldable pub permanent : Err → Err
permanent e = if is e permanent_failure then e else joined (sentinel permanent_failure) e

unfoldable pub is_permanent : Err → Bool
is_permanent e =
    is e permanent_failure
    || is e invalid_file_format
    || is e invalid_image
    || is e image_too_large
    || is e invalid_size_param
    || is e invalid_format_param
