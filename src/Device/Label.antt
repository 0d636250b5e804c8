-- ===== src/Device/Label.antt =====
-- `parse_device_label`.
use auth_n_z.Common.{
  if◌then◌else◌, lower, String, not, ◌&&◌, ◌||◌, Option, none, some, ◌==◌, text_append, has_text,
}

-- the lower-case User-Agent's system
unfoldable pub os_name : String → String
os_name ua =
    if has_text "windows nt 10" ua || has_text "windows nt 11" ua || has_text "windows" ua
    then "Windows"
    else if has_text "macintosh" ua || has_text "mac os x" ua
    then "macOS"
    else if has_text "iphone" ua || has_text "ipad" ua
    then "iOS"
    else if has_text "android" ua
    then "Android"
    else if has_text "linux" ua
    then "Linux"
    else "Unknown OS"

-- the lower-case User-Agent's browser
unfoldable pub browser_name : String → String
browser_name ua =
    if has_text "edg/" ua || has_text "edge" ua
    then "Microsoft Edge"
    else if has_text "chrome" ua && has_text "safari" ua && not (has_text "edg" ua)
    then "Google Chrome"
    else if has_text "safari" ua && not (has_text "chrome" ua)
    then "Apple Safari"
    else if has_text "firefox" ua
    then "Mozilla Firefox"
    else if has_text "opera" ua || has_text "opr/" ua
    then "Opera"
    else "Browser"

-- `parse_device_label`
unfoldable pub parse_device_label : Option String → String
unfolding os_name browser_name
parse_device_label none = "Unknown Browser / Device"
parse_device_label (some user_agent) =
    let ua = lower user_agent in
    if user_agent == ""
    then "Unknown Browser / Device"
    else text_append (browser_name ua) (text_append " on " (os_name ua))
