-- ===== src/Sessions.antt =====
-- The label of a session in webui/sessions.go.
pub mod Label
use geo_proxy.Common.{◌&&◌, not, ◌++◌, if◌then◌else◌}
use geo_proxy.Common.Key.{Text, text_eq}
use geo_proxy.GoText.{Unicode, codes, to_lower, trim_space}
use geo_proxy.Selector.{is_empty}

pub session_route_label : Unicode → Text → Text → Text
session_route_label u region session_id =
    let s = trim_space u session_id in
    let r = to_lower u (trim_space u region) in
    if is_empty s
    then codes ""
    else if not (is_empty r) && not (text_eq r (codes "unknown"))
    then codes "region-" ++ (r ++ (codes "-session-" ++ s))
    else codes "session-" ++ s
