-- ===== src/Bluescreen/Page.antt =====
-- apps/windows-agent/src/bluescreen.rs: the page that the phone shows.
use desktop_mdm.Prelude.{[], ◌∷◌}
use desktop_mdm.Text.{Text, chars, concat}

unfoldable pub page : Text → Text → Text → Text
page title description action = concat (
    chars "<!doctype html><html lang=\"en\"><meta charset=\"utf-8\"><meta name=\"viewport\""
    ∷ chars " content=\"width=device-width,initial-scale=1\"><title>"
    ∷ title
    ∷ chars "</title><style>body{margin:0;background:#081a35;color:#edf5ff;font:17px/1.6 syst"
    ∷ chars "em-ui,sans-serif;min-height:100vh;display:grid;place-items:center}main{width:min"
    ∷ chars "(440px,calc(100% - 64px));padding:32px 0}small{color:#8fbaff;letter-spacing:.15e"
    ∷ chars "m}h1{font-size:36px;line-height:1.15}p{color:#c4d2e6}button{font:inherit;font-we"
    ∷ chars "ight:650;border:0;border-radius:12px;background:#8fc6ff;color:#071a34;padding:16"
    ∷ chars "px 20px;width:100%;cursor:pointer}button:focus-visible{outline:3px solid white;o"
    ∷ chars "utline-offset:5px}footer{margin-top:32px;font-size:14px;color:#95aac6}</style><m"
    ∷ chars "ain><small>EMI DEVICE · BLUE SCREEN MODE</small><h1>"
    ∷ title
    ∷ chars "</h1><p>"
    ∷ description
    ∷ chars "</p>"
    ∷ action
    ∷ chars "<footer>Temporary, one-time link. The PC\\u0027s Exit button or a reboot also en"
    ∷ chars "ds the simulation.</footer></main></html>"
    ∷ [])
