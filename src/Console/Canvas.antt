-- ===== src/Console/Canvas.antt =====
-- What the script of the dashboard (pymesh/controller/web.py) draws: the nodes on the canvas and
-- the parameters of one node. Coordinates are left out: a node stands at a part of a whole turn
-- around the controller.
use pymesh.Base.{ℕ, ◌+◌, ◌||◌, List, [], ◌∷◌, ◌++◌, if◌then◌else◌, is_empty, length, take}
use pymesh.Base.Text.{Text, codes, has_part, lower, join}
use pymesh.Controller.Views.{NodeView}
use pymesh.Console.Carousel.{newline, Icon, router, server, pc, laptop, svg_icon}

unfoldable pub icon_type : Text → Icon
icon_type hostname =
    let h_name = lower hostname in
    if has_part (codes "sv") h_name
      || (has_part (codes "vps") h_name || has_part (codes "server") h_name)
    then server
    else if has_part (codes "laptop") h_name
    then laptop
    else pc

abbrev status_color : NodeView → Text
status_color node = if node.online then codes "#00c853" else codes "#d50000"

unfoldable pub controller_html : Text
unfolding svg_icon
controller_html = join newline (
    []
    ∷ (codes "                " ++ (svg_icon router))
    ∷ codes
        "                <text x=\"0\" y=\"24\" fill=\"#005B94\" font-size=\"11\" font-weight=\"bold\" text-anchor=\"middle\">Controller</text>"
    ∷ codes
        "                <text x=\"0\" y=\"36\" fill=\"#444\" font-size=\"10\" text-anchor=\"middle\">100.64.0.1</text>"
    ∷ codes "            "
    ∷ [])

unfoldable pub device_html : NodeView → Text
unfolding svg_icon icon_type
device_html node = join newline (
    []
    ∷ (codes "                    <circle cx=\"0\" cy=\"0\" r=\"26\" fill=\"#ffffff\" stroke=\""
        ++ (status_color node ++ (codes "\" stroke-width=\"2\" />")))
    ∷ (codes "                    " ++ (svg_icon (icon_type node.hostname)))
    ∷ (codes
          "                    <text x=\"0\" y=\"36\" fill=\"#111827\" font-size=\"11\" font-weight=\"bold\" text-anchor=\"middle\">"
        ++ (node.hostname ++ (codes "</text>")))
    ∷ (codes
          "                    <text x=\"0\" y=\"48\" fill=\"#6b7280\" font-size=\"10\" text-anchor=\"middle\">"
        ++ (node.mesh_ipv4 ++ (codes "</text>")))
    ∷ codes "                "
    ∷ [])

-- a part of a turn: the i-th of n nodes stands at `i / n`
pub record Turn : Type 0 where
  pub part : ℕ
  pub whole : ℕ

-- what stands on the canvas; a device is drawn for the node that a click on it hands over
pub data Shape : Type 0 where
  centre : Text → Shape
  line : Turn → Text → Shape
  light : Turn → Shape
  figure : Turn → NodeView → Text → Shape

-- the loop over the nodes, from the i-th of n
unfoldable pub render_nodes : ℕ → ℕ → List NodeView → List Shape
unfolding device_html
render_nodes i n [] = []
render_nodes i n (node ∷ nodes) =
    let turn : Turn = record { part = i; whole = n } in
    line turn (codes "link-node-" ++ node.id)
    ∷ light turn
    ∷ figure turn node (device_html node)
    ∷ render_nodes (i + 1) n nodes

unfoldable pub render_canvas : List NodeView → List Shape
unfolding controller_html render_nodes
render_canvas nodes = centre controller_html ∷ render_nodes 0 (length nodes) nodes

-- the content that `handleNodeClick` sets
unfoldable pub node_details : NodeView → Text
node_details node = join newline (
    []
    ∷ (codes "                    <div class=\"box-title\">Device: "
        ++ (node.hostname ++ (codes "</div>")))
    ∷ (codes
          "                    <div class=\"info-row\"><span class=\"info-label\">Node ID:</span><span class=\"info-val\">"
        ++ (take 12 node.id ++ (codes "...</span></div>")))
    ∷ (codes
          "                    <div class=\"info-row\"><span class=\"info-label\">Mesh IPv4:</span><span class=\"info-val\">"
        ++ (node.mesh_ipv4 ++ (codes "</span></div>")))
    ∷ (codes
          "                    <div class=\"info-row\"><span class=\"info-label\">Mesh IPv6:</span><span class=\"info-val\">"
        ++ (node.mesh_ipv6 ++ (codes "</span></div>")))
    ∷ (codes
          "                    <div class=\"info-row\"><span class=\"info-label\">Status:</span><span class=\"info-val\" style=\"color:"
        ++ (status_color node
            ++ (codes "; font-weight:bold;\">"
                ++ ((if node.online then codes "ONLINE" else codes "OFFLINE")
                    ++ (codes "</span></div>")))))
    ∷ (codes
          "                    <div class=\"info-row\"><span class=\"info-label\">OS / Ver:</span><span class=\"info-val\">"
        ++ (node.os ++ (codes " / " ++ (node.version ++ (codes "</span></div>")))))
    ∷ (codes
          "                    <div class=\"info-row\"><span class=\"info-label\">NAT Type:</span><span class=\"info-val\">"
        ++ ((if is_empty node.nat_type then codes "Full Cone" else node.nat_type)
            ++ (codes "</span></div>")))
    ∷ (codes
          "                    <div class=\"info-row\"><span class=\"info-label\">WG Key:</span><span class=\"info-val\">"
        ++ (take 10 node.wireguard_public_key ++ (codes "...</span></div>")))
    ∷ codes "                "
    ∷ [])

-- the row that `firePacketSimulation` inserts
unfoldable pub pdu_row : NodeView → Text
pdu_row target_node = join newline (
    []
    ∷ codes "                <td style=\"color:#00c853; font-weight:bold;\">Success</td>"
    ∷ codes "                <td>Controller</td>"
    ∷ (codes "                <td>" ++ (target_node.hostname ++ (codes "</td>")))
    ∷ codes "                <td>ICMP / WG</td>"
    ∷ codes "                <td>0.003</td>"
    ∷ codes "            "
    ∷ [])

-- the row that the list of events begins with, of the page as it is sent
unfoldable pub first_row : Text
first_row = join newline (
    []
    ∷ codes
        "                            <td style=\"color:#00c853; font-weight:bold;\">Success</td>"
    ∷ codes "                            <td>client-pc</td>"
    ∷ codes "                            <td>SV1</td>"
    ∷ codes "                            <td>ICMP / WG</td>"
    ∷ codes "                            <td>0.004</td>"
    ∷ codes "                        "
    ∷ [])
