-- ===== src/Agent/Demo/Rest.antt =====
-- app/agent/demo_mode.go: the lines of the simulated container `rest`.
use dkll.Base.{List, [], ◌∷◌, ◌++◌, Bytes, codes}

-- The letter of a millionth, in UTF-8.
abbrev micro : Bytes
micro = 194 ∷ 181 ∷ []

abbrev pub rest_demo : List Bytes
rest_demo =
    (codes "2019/05/27 16:10:36.274 [INFO]  GET - /api/v1/rss/site?site=radiot - 721f34e"
      ++ codes "65c51 - 200 (15872) - 207.497"
      ++ micro
      ++ codes "s")
    ∷ (codes "2019/05/27 16:10:37.208 [INFO]  GET - /api/v1/rss/site?site=radiot - 2c65059"
        ++ codes "c4c90 - 200 (15872) - 338.754"
        ++ micro
        ++ codes "s")
    ∷ (codes "2019/05/27 16:10:53.983 [INFO]  POST - /api/v1/counts?site=rtnews - 6e8c4995"
        ++ codes "51fb - 200 (50763) - 1.\n093672ms - [\"https://news.radio-t.com/post/glavnyi-n"
        ++ codes "avyk-razrabotchika-kotoryi-sdelaet-vash-kod-luchshe\",\"https://news.radio-t.c"
        ++ codes "om/post/github-sponsors-novyi-sposob-vnesti-svoi-vklad-v-open-source\",\"https"
        ++ codes "://news.radio-t.com/post/tekhnicheskii-dolg\",\"https://news.radio-t.com/post/"
        ++ codes "github-sponsors-now-lets-users-back-open-source-projects\",\"https://news.radi"
        ++ codes "o-t.com/post/apple-introduces-first-8-core-macbook-pro-the-fastest-mac-noteb"
        ++ codes "ook-ever\",\"https://news.radio-t.com/post/bliki-technicaldebt\",\"https://news."
        ++ codes "radio-t.com/post/chem-bystree-vy-zabudete-oop-tem-luchshe-dlia-vas-i-vashikh"
        ++ codes "-programm\",\"https://news.radio-t.com/post/opennews-vzlom-diskussionnoi-plosh"
        ++ codes "chadki-stack-overflow\",\"https://news.radio-t.com/post/spotify-s-first-hardwa"
        ++ codes "re-is-a-voice-controlled-device-for-your-car\",\"https://news.radio-t.com/post"
        ++ codes "/the-new-motorola-razr-looks-amazing-in-this-render\",\"https://news.radio-t.c"
        ++ codes "om/post/why-whatsapp-will-never-be-secure,\"https://news.radio-t.com/post/fal"
        ++ codes "sehoods-programmers-believe-about-unix-time\",\"https://news.radio-t.com...")
    ∷ (codes "2019/05/27 16:10:55.045 [INFO]  POST - /api/v1/counts?site=radiot - d40c6ca5"
        ++ codes "b373 - 200 (3) - 75.952"
        ++ micro
        ++ codes "s - []")
    ∷ (codes "2019/05/27 16:10:55.055 [INFO]  GET - /api/v1/config?site=radiot - d40c6ca5b"
        ++ codes "373 - 200 (498) - 69.365"
        ++ micro
        ++ codes "s")
    ∷ (codes "2019/05/27 16:10:55.241 [INFO]  GET - /api/v1/find?site=radiot&url=https://r"
        ++ codes "adio-t.com/p/2008/10/26/podcast-109/&sort=-active&format=tree - d40c6ca5b373"
        ++ codes " - 200 (23087) - 188.182"
        ++ micro
        ++ codes "s")
    ∷ (codes "2019/05/27 16:11:06.284 [INFO]  GET - /api/v1/rss/site?site=radiot - 721f34e"
        ++ codes "65c51 - 200 (15872) - 862.73"
        ++ micro
        ++ codes "s")
    ∷ (codes "2019/05/27 16:11:36.293 [INFO]  GET - /api/v1/rss/site?site=radiot - 721f34e"
        ++ codes "65c51 - 200 (15872) - 213.72"
        ++ micro
        ++ codes "s")
    ∷ (codes "2019/05/27 16:11:54.201 [INFO]  POST - /api/v1/counts?site=rtnews - 6e8c4995"
        ++ codes "51fb - 200 (50763) - 1.197306ms - [\"https://news.radio-t.com/post/glavnyi-na"
        ++ codes "vyk-razrabotchika-kotoryi-sdelaet-vash-kod-luchshe\",\"https://news.radio-t.co"
        ++ codes "m/post/github-sponsors-novyi-sposob-vnesti-svoi-vklad-v-open-source\",\"https:"
        ++ codes "//news.radio-t.com/post/tekhnicheskii-dolg\",\"https://news.radio-t.com/post/g"
        ++ codes "ithub-sponsors-now-lets-users-back-open-source-projects\",\"https://news.radio"
        ++ codes "-t.com/post/apple-introduces-first-8-core-macbook-pro-the-fastest-mac-notebo"
        ++ codes "ok-ever\",\"https://news.radio-t.com/post/bliki-technicaldebt\",\"https://news.r"
        ++ codes "adio-t.com/post/chem-bystree-vy-zabudete-oop-tem-luchshe-dlia-vas-i-vashikh-"
        ++ codes "programm\",\"https://news.radio-t.com/post/opennews-vzlom-diskussionnoi-ploshc"
        ++ codes "hadki-stack-overflow\",\"https://news.radio-t.com/post/spotify-s-first-hardwar"
        ++ codes "e-is-a-voice-controlled-device-for-your-car\",\"https://news.radio-t.com/post/"
        ++ codes "the-new-motorola-razr-looks-amazing-in-this-render\",\"https://news.radio-t.co"
        ++ codes "m/post/why-whatsapp-will-never-be-secure\",\"https://news.radio-t.com/post/fal"
        ++ codes "sehoods-programmers-believe-about-unix-time\",\"https://news.radio-t.com...")
    ∷ (codes "2019/05/27 16:12:06.299 [INFO]  GET - /api/v1/rss/site?site=radiot - 721f34e"
        ++ codes "65c51 - 200 (15872) - 844.052"
        ++ micro
        ++ codes "s")
    ∷ (codes "2019/05/27 16:12:36.307 [INFO]  GET - /api/v1/rss/site?site=radiot - 721f34e"
        ++ codes "65c51 - 200 (15872) - 227.176"
        ++ micro
        ++ codes "s")
    ∷ (codes "2019/05/27 16:12:54.424 [INFO]  POST - /api/v1/counts?site=rtnews - 6e8c4995"
        ++ codes "51fb - 200 (50763) - 977.\n091"
        ++ micro
        ++ codes "s - [\"https://news.radio-t.com/post/glavnyi-navyk-razrabotchika-kotoryi-sdel"
        ++ codes "aet-vash-kod-luchshe\",\n\"https://news.radio-t.com/post/github-sponsors-novyi-"
        ++ codes "sposob-vnesti-svoi-vklad-v-open-source\",\"https://news.radio-t.com/post/tekhn"
        ++ codes "icheskii-dolg\",\"https://news.radio-t.com/post/github-sponsors-now-lets-users"
        ++ codes "-back-open-source-projects\",\"https://news.radio-t.com/post/apple-introduces-"
        ++ codes "first-8-core-macbook-pro-the-fastest-mac-notebook-ever\",\"https://news.radio-"
        ++ codes "t.com/post/bliki-technicaldebt\",\"https://news.radio-t.com/post/chem-bystree-"
        ++ codes "vy-zabudete-oop-tem-luchshe-dlia-vas-i-vashikh-programm\",\"https://news.radio"
        ++ codes "-t.com/post/opennews-vzlom-diskussionnoi-ploshchadki-stack-overflow\",\"https:"
        ++ codes "//news.radio-t.com/post/spotify-s-first-hardware-is-a-voice-controlled-devic"
        ++ codes "e-for-your-car\",\"https://news.radio-t.com/post/the-new-motorola-razr-looks-a"
        ++ codes "mazing-in-this-render\",\"https://news.radio-t.com/post/why-whatsapp-will-neve"
        ++ codes "r-be-secure\",\"https://news.radio-t.com/post/falsehoods-programmers-believe-a"
        ++ codes "bout-unix-time\",\"https://news.radio-t.com...")
    ∷ (codes "2019/05/27 16:13:06.314 [INFO]  GET - /api/v1/rss/site?site=radiot - 721f34e"
        ++ codes "65c51 - 200 (15872) - 812.592"
        ++ micro
        ++ codes "s")
    ∷ (codes "2019/05/27 16:13:32.620 [INFO]  POST - /api/v1/counts?site=radiot - a7d40bba"
        ++ codes "62fb - 200 (2051) - 117.91"
        ++ micro
        ++ codes "s - [\"https://radio-t.com/p/2019/05/25/podcast-651/\",\"https://radio-t.com/p/"
        ++ codes "2019/05/21/prep-651/\",\"https://radio-t.com/p/2019/05/18/podcast-650/\",\"https"
        ++ codes "://radio-t.com/p/2019/05/14/prep-650/\",\"https://radio-t.com/p/2019/05/11/pod"
        ++ codes "cast-649/\",\"https://radio-t.com/p/2019/05/07/prep-649/\",\"https://radio-t.com"
        ++ codes "/p/2019/05/04/podcast-648/\",\"https://radio-t.com/p/2019/04/30/prep-648/\",\"ht"
        ++ codes "tps://radio-t.com/p/2019/04/27/podcast-647/\",\"https://radio-t.com/p/2019/04/"
        ++ codes "23/prep-647/\",\"https://radio-t.com/p/2019/04/20/podcast-646/\",\"https://radio"
        ++ codes "-t.com/p/2019/04/16/prep-646/\",\"https://radio-t.com/p/2019/04/13/podcast-645"
        ++ codes "/\",\"https://radio-t.com/p/2019/04/09/prep-645/\",\"https://radio-t.com/p/2019/"
        ++ codes "04/06/podcast-644/\"]")
    ∷ (codes "2019/05/27 16:13:36.322 [INFO]  GET - /api/v1/rss/site?site=radiot - 721f34e"
        ++ codes "65c51 - 200 (15872) - 251.704"
        ++ micro
        ++ codes "s")
    ∷ []
