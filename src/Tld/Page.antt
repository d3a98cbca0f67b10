-- ===== src/Tld/Page.antt =====
-- The page of a registry (pymesh/dns/tld.py).
use pymesh.Base.{List, [], ◌∷◌, ◌++◌, if◌then◌else◌, is_empty}
use pymesh.Base.Text.{Text, codes, join}
use pymesh.Tld.{clean_tld}

-- a node as it is listed on the page
pub record Domain : Type 0 where
  pub hostname : Text
  pub mesh_ipv4 : Text
  pub mesh_ipv6 : Text

abbrev newline : Text
newline = codes "\n"

-- the row of a node; the text begins with a newline
unfoldable pub domain_row : Text → Domain → Text
domain_row clean d = join newline (
    []
    ∷ codes "            <tr>"
    ∷ (codes "                <td><b>"
        ++ (d.hostname ++ (codes "." ++ (clean ++ codes "</b></td>"))))
    ∷ (codes "                <td>" ++ (d.mesh_ipv4 ++ codes "</td>"))
    ∷ (codes "                <td>" ++ (d.mesh_ipv6 ++ codes "</td>"))
    ∷ codes "                <td><span class=\"status-active\">ACTIVE</span></td>"
    ∷ codes "            </tr>"
    ∷ codes "            "
    ∷ [])

unfoldable pub domain_rows : Text → List Domain → Text
unfolding domain_row
domain_rows clean [] = []
domain_rows clean (d ∷ domains) = domain_row clean d ++ domain_rows clean domains

abbrev or_none : Text → Text → Text
or_none clean rows =
    if is_empty rows
    then codes "<tr><td colspan='4' style='text-align:center; color:#666;'>No registered nodes in ."
      ++ (clean ++ codes " yet.</td></tr>")
    else rows

-- the style of the page
unfoldable styles : List Text
styles =
    codes "    <style>"
    ∷ codes
        "        * { box-sizing: border-box; margin: 0; padding: 0; font-family: -apple-system, BlinkMacSystemFont, \"Segoe UI\", Roboto, Helvetica, Arial, sans-serif; }"
    ∷ codes
        "        body { background: #f8fafc; color: #0f172a; padding: 40px 20px; line-height: 1.6; }"
    ∷ codes
        "        .container { max-width: 800px; margin: 0 auto; background: #ffffff; border: 1px solid #e2e8f0; border-radius: 8px; padding: 30px; box-shadow: 0 4px 6px -1px rgba(0,0,0,0.1); }"
    ∷ codes
        "        .header { border-bottom: 2px solid #0284c7; padding-bottom: 15px; margin-bottom: 25px; }"
    ∷ codes "        .header h1 { font-size: 28px; color: #0284c7; }"
    ∷ codes "        .header p { color: #64748b; font-size: 14px; margin-top: 4px; }"
    ∷ codes
        "        .info-card { background: #f1f5f9; border-left: 4px solid #0284c7; padding: 15px 20px; margin-bottom: 25px; border-radius: 0 6px 6px 0; }"
    ∷ codes "        .info-card h3 { font-size: 16px; color: #0f172a; margin-bottom: 6px; }"
    ∷ codes
        "        table { width: 100%; border-collapse: collapse; margin-top: 15px; font-size: 14px; }"
    ∷ codes "        th, td { border: 1px solid #cbd5e1; padding: 10px 12px; text-align: left; }"
    ∷ codes "        th { background: #e2e8f0; color: #334155; font-weight: 600; }"
    ∷ codes
        "        .status-active { background: #dcfce7; color: #166534; padding: 2px 8px; border-radius: 4px; font-weight: bold; font-size: 12px; }"
    ∷ codes "    </style>"
    ∷ []

unfoldable head : Text → List Text
head clean =
    codes "<!DOCTYPE html>"
    ∷ codes "<html lang=\"en\">"
    ∷ codes "<head>"
    ∷ codes "    <meta charset=\"UTF-8\">"
    ∷ codes "    <meta name=\"viewport\" content=\"width=device-width, initial-scale=1.0\">"
    ∷ (codes "    <title>TLD Registry | ." ++ (clean ++ codes "</title>"))
    ∷ []

unfoldable body : Text → Text → Text → List Text
body clean publisher_details domain_rows =
    codes "</head>"
    ∷ codes "<body>"
    ∷ codes "    <div class=\"container\">"
    ∷ codes "        <div class=\"header\">"
    ∷ (codes "            <h1>Top-Level Domain Registry: ." ++ (clean ++ codes "</h1>"))
    ∷ codes "            <p>PyMesh Encrypted Private Mesh Network TLD Information Page</p>"
    ∷ codes "        </div>"
    ∷ codes "        <div class=\"info-card\">"
    ∷ codes "            <h3>TLD Publisher Information</h3>"
    ∷ (codes "            <p>" ++ (publisher_details ++ codes "</p>"))
    ∷ codes "        </div>"
    ∷ (codes "        <h2>Registered ." ++ (clean ++ codes " Hostnames</h2>"))
    ∷ codes "        <table>"
    ∷ codes "            <thead>"
    ∷ codes "                <tr>"
    ∷ codes "                    <th>Domain Name</th>"
    ∷ codes "                    <th>Mesh IPv4</th>"
    ∷ codes "                    <th>Mesh IPv6</th>"
    ∷ codes "                    <th>Status</th>"
    ∷ codes "                </tr>"
    ∷ codes "            </thead>"
    ∷ codes "            <tbody>"
    ∷ (codes "                " ++ domain_rows)
    ∷ codes "            </tbody>"
    ∷ codes "        </table>"
    ∷ codes "    </div>"
    ∷ codes "</body>"
    ∷ codes "</html>"
    ∷ []

-- `TLDManager.render_registry_html`
unfoldable pub render_registry_html : Text → Text → List Domain → Text
unfolding domain_rows styles head body
render_registry_html tld_name publisher_details registered_domains =
    let clean = clean_tld tld_name in
    join newline (
      head clean
      ++ (styles
          ++ body clean publisher_details (or_none clean (domain_rows clean registered_domains))))
