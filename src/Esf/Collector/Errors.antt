-- ===== src/Esf/Collector/Errors.antt =====
-- `format_client_error` of collector.rs: hints behind the text of an error of `Client::new`.
use esgraph.Prelude.{◌||◌, ◌++◌, if◌then◌else◌}
use esgraph.Prelude.Text.{Text, text, contains_text}

-- On the text of the error, which is `e.to_string()`.
unfoldable pub format_client_error : Text → Text
unfolding contains_text
format_client_error msg =
    if contains_text (text "NOT_ENTITLED") msg || contains_text (text "NotEntitled") msg
    then msg
      ++ text
          "\nhint: embed com.apple.developer.endpoint-security.client and ad-hoc sign (see docs/vm-setup.md)"
    else if contains_text (text "NOT_PERMITTED") msg || contains_text (text "NotPermitted") msg
    then msg ++ text "\nhint: grant Full Disk Access to esgraphd and Terminal in System Settings"
    else if contains_text (text "NOT_PRIVILEGED") msg || contains_text (text "NotPrivileged") msg
    then msg ++ text "\nhint: run with sudo"
    else msg
